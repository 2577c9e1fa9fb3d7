-- ===== src/Engine/Actions.antt =====
-- Actions: Go functions that call out, may fail, may panic, and may not return.
use gnomock.Base.{◌≡◌, refl, Text, ◌∷◌, ◌⊎◌, inl, inr}
use gnomock.Errors.{GoError, wrap}
use gnomock.Engine.{Call, History, Reply, reply, refuse}

-- `stuck` is a loop that has used up its fuel.
pub data Result {ℓ} (A : Type ℓ) : Type ℓ where
  ok : A → Result A
  err : GoError → Result A
  panic stuck : Result A

-- To split on what an action did and keep the equation.
pub data Ended {ℓ} {A : Type ℓ} (m : Result A × History) : Type ℓ where
  returned : (a : A) (h : History) → m ≡ (ok a, h) → Ended m
  refused : (e : GoError) (h : History) → m ≡ (err e, h) → Ended m
  panicked : (h : History) → m ≡ (panic, h) → Ended m
  hung : (h : History) → m ≡ (stuck, h) → Ended m

Ended-pair {ℓ} : {A : Type ℓ} (r : Result A) (h : History) → Ended (r, h)
Ended-pair (ok a) h = returned a h refl
Ended-pair (err e) h = refused e h refl
Ended-pair panic h = panicked h refl
Ended-pair stuck h = hung h refl

pub ended {ℓ} : {A : Type ℓ} (m : Result A × History) → Ended m
ended m = Ended-pair m.0 m.1

abbrev pub M : Type 0 → Type 0
M A = History → Result A × History

abbrev pub pure : {A : Type 0} → A → M A
pure a h = (ok a, h)

abbrev pub fail : {A : Type 0} → GoError → M A
fail e h = (err e, h)

abbrev pub crash : {A : Type 0} → M A
crash h = (panic, h)

abbrev pub hang : {A : Type 0} → M A
hang h = (stuck, h)

abbrev pub continue : {A B : Type 0} → Result A → (A → M B) → M B
continue (ok a) f h = f a h
continue (err e) f h = (err e, h)
continue panic f h = (panic, h)
continue stuck f h = (stuck, h)

infixl 5 ◌>>=◌ ◌>>◌
abbrev pub ◌>>=◌ : {A B : Type 0} → M A → (A → M B) → M B
◌>>=◌ m f h = let (r, h') = m h in continue r f h'

abbrev pub ◌>>◌ : {B : Type 0} → M (Unit {0}) → M B → M B
m >> k = m >>= λ _. k

-- Reads the surroundings at the current point.
abbrev pub look : {A : Type 0} → (History → A) → M A
look f h = (ok (f h), h)

abbrev pub answer : {A : Type 0} → Reply A → Result A
answer (reply a) = ok a
answer (refuse e) = err e

-- Takes an answer that is no call.
abbrev pub given : {A : Type 0} → Reply A → M A
given r h = (answer r, h)

-- The deferred `closeErr := x.Close(); if err == nil && closeErr != nil { err = closeErr }`
abbrev pub close_result : {A : Type 0} → Reply (Unit {0}) → Result A → Result A
close_result (reply u) r = r
close_result (refuse e) (ok a) = err e
close_result (refuse e) (err f) = err f
close_result (refuse e) panic = panic
close_result (refuse e) stuck = stuck

abbrev pub closing : {A : Type 0} → Reply (Unit {0}) → M A → M A
closing close m h = let (r, h') = m h in (close_result close r, h')

-- Makes a call and takes its answer.
abbrev pub ask : {A : Type 0} → Call → (History → Reply A) → M A
ask call f h = (answer (f h), call ∷ h)

abbrev pub wrap_result : {A : Type 0} → Text → Result A → Result A
wrap_result prefix (ok a) = ok a
wrap_result prefix (err e) = err (wrap prefix e)
wrap_result prefix panic = panic
wrap_result prefix stuck = stuck

-- `if err != nil { return nil, fmt.Errorf("prefix: %w", err) }`
abbrev pub wrapping : {A : Type 0} → Text → M A → M A
wrapping prefix m h = let (r, h') = m h in (wrap_result prefix r, h')

-- The value or the error of an action, for code that goes on after an error.
pub data Tried (A : Type 0) : Type 0 where
  value : A → Tried A
  failed : GoError → Tried A

abbrev pub try_result : {A : Type 0} → Result A → Result (Tried A)
try_result (ok a) = ok (value a)
try_result (err e) = ok (failed e)
try_result panic = panic
try_result stuck = stuck

abbrev pub try : {A : Type 0} → M A → M (Tried A)
try m h = let (r, h') = m h in (try_result r, h')

-- What was tried, as the result of an action.
abbrev pub rethrow : {A : Type 0} → Tried A → M A
rethrow (value a) = pure a
rethrow (failed e) = fail e

-- `_ = f()`
abbrev pub ignore : {A : Type 0} → M A → M (Unit {0})
ignore m = try m >>= λ _. pure tt

pub Tried-cases :
    {A : Type 0} (t : Tried A) → ((a : A) × (t ≡ value a)) ⊎ ((e : GoError) × (t ≡ failed e))
Tried-cases (value a) = inl (a, refl)
Tried-cases (failed e) = inr (e, refl)

pub Reply-cases :
    {A : Type 0} (t : Reply A) → ((a : A) × (t ≡ reply a)) ⊎ ((e : GoError) × (t ≡ refuse e))
Reply-cases (reply a) = inl (a, refl)
Reply-cases (refuse e) = inr (e, refl)

-- A state after an action that changes it only when it succeeds.
abbrev pub kept_if : {A S : Type 0} → Result A → (A → S) → S → S
kept_if (ok a) changed same = changed a
kept_if (err e) changed same = same
kept_if panic changed same = same
kept_if stuck changed same = same
