-- ===== src/Parallel/Results.antt =====
-- What a parallel start returns.
use gnomock.Base.{
  List, ◌≡◌, ◌<◌, ◌⊎◌, [], Option, ◌∷◌, none, some, ap, arith, ℕ, zero, suc, get_elem?, length, ◌∙◌,
  inl, inr, refl, All,
}
use gnomock.Engine.{History}
use gnomock.Engine.Actions.{M, ok, Result, ended, returned, refused, panicked, hung}
use gnomock.Session.Create.{Started}
use gnomock.Parallel.{Group, go, first_failure, run_each, set, finish, no_containers}
use mathlib.Core.Path.{subst}
use gnomock.Errors.{GoError}
use gnomock.Container.{Container}

abbrev pub Has : ℕ → List ℕ → Type 0
Has i [] = ⊥
Has i (j ∷ order) = (i ≡ j) ⊎ Has i order

abbrev pub Distinct : List ℕ → Type 0
Distinct [] = Unit
Distinct (i ∷ order) = ¬ (Has i order) × Distinct order

-- The indexes below `n`, each once, in any order.
abbrev pub Schedule : ℕ → List ℕ → Type 0
Schedule n order = All (λ i. i < n) order × Distinct order × ((i : ℕ) → i < n → Has i order)

-- A preset of this index was started, with this result.
abbrev pub Returned : ℕ → Started → List (ℕ × Started) → Type 0
Returned i s [] = ⊥
Returned i s ((j, t) ∷ results) = ((i ≡ j) × (s ≡ t)) ⊎ Returned i s results

-- The results in the order of the goroutines, each of its own start.
pub data Ran (presets : List (M Started))
    : List ℕ → History → List (ℕ × Started) → History → Type 0 where
  none_left : (h : History) → Ran presets [] h [] h
  then_next :
      (i : ℕ) (order : List ℕ) (p : M Started) (s : Started) (rest : List (ℕ × Started))
      (h g k : History)
      → get_elem? presets i ≡ some p
      → p h ≡ (ok s, g)
      → Ran presets order g rest k
      → Ran presets (i ∷ order) h ((i, s) ∷ rest) k

abbrev pub failure_of : List (ℕ × Started) → Option GoError
failure_of [] = none
failure_of ((i, s) ∷ rest) = first_failure s.failure (failure_of rest)

first_failure_assoc :
    (a b c : Option GoError)
    → first_failure (first_failure a b) c ≡ first_failure a (first_failure b c)
first_failure_assoc none b c = refl
first_failure_assoc (some e) b c = refl

first_failure-none : (a : Option GoError) → first_failure a none ≡ a
first_failure-none none = refl
first_failure-none (some e) = refl

module _ (c : Option Container) where
  length-set : (i : ℕ) (xs : List (Option Container)) → length (set i c xs) ≡ length xs
  unfolding set
  length-set i [] = refl
  length-set zero (x ∷ xs) = refl
  length-set (suc i) (x ∷ xs) = ap suc (length-set i xs)

  get-set :
      (i : ℕ) (xs : List (Option Container)) → i < length xs → get_elem? (set i c xs) i ≡ some c
  unfolding set
  get-set i [] lt = absurd (omega arith)
  get-set zero (x ∷ xs) lt = refl
  get-set (suc i) (x ∷ xs) lt = get-set i xs (omega arith)

  get-set-other :
      (i j : ℕ) (xs : List (Option Container))
      → ¬ (j ≡ i)
      → get_elem? (set i c xs) j ≡ get_elem? xs j
  unfolding set
  get-set-other i j [] n = refl
  get-set-other zero zero (x ∷ xs) n = absurd (n refl)
  get-set-other zero (suc j) (x ∷ xs) n = refl
  get-set-other (suc i) zero (x ∷ xs) n = refl
  get-set-other (suc i) (suc j) (x ∷ xs) n = get-set-other i j xs (λ e. n (ap suc e))

get_elem-below :
    {A : Type 0} (xs : List A) (i : ℕ) → i < length xs → (x : A) × (get_elem? xs i ≡ some x)
get_elem-below [] i lt = absurd (omega arith)
get_elem-below (x ∷ xs) zero lt = (x, refl)
get_elem-below (x ∷ xs) (suc i) lt = get_elem-below xs i (omega arith)

length-no_containers :
    (presets : List (M Started)) → length (no_containers presets).containers ≡ length presets
length-no_containers [] = refl
length-no_containers (p ∷ presets) = ap suc (length-no_containers presets)

-- What is left to be done, from a group at `h` to one at `k`.
record Finishing (presets : List (M Started)) (order : List ℕ) (g : Group) (h : History)
    (group : Group) (k : History) : Type 0 where
  results : List (ℕ × Started)
  ran : Ran presets order h results k
  first : group.failure ≡ first_failure g.failure (failure_of results)
  others : (j : ℕ) → ¬ (Has j order) → get_elem? group.containers j ≡ get_elem? g.containers j
  places :
      (i : ℕ)
      → Has i order
      → (s : Started) × Returned i s results × (get_elem? group.containers i ≡ some s.container)

module _ (presets : List (M Started)) where
  run_each-Finishing :
      (order : List ℕ) (g group : Group) (h k : History)
      → All (λ i. i < length presets) order
      → Distinct order
      → length g.containers ≡ length presets
      → run_each presets order g h ≡ (ok group, k)
      → Finishing presets order g h group k
  unfolding run_each finish
  run_each-Finishing [] g group h k below once size e = record {
    results = [];
    ran = subst (Ran presets [] h []) (ap (λ (r : Result Group × History). r.1) e) (none_left h);
    first = ground (arith, first_failure-none g.failure);
    others = λ j n. ground arith;
    places = λ i there. absurd there;
  }
  run_each-Finishing (i ∷ order) g group h k (lt, below) (fresh, once) size e =
      let (p, at) = get_elem-below presets i lt in
      elim (ended (p h)) [
        | returned s h' q ↦
            let rest =
              run_each-Finishing order (finish i s g) group h' k below once
                (length-set s.container i g.containers ∙ size) (ground arith) in
            record {
              results = (i, s) ∷ rest.results;
              ran = then_next i order p s rest.results h h' k at q rest.ran;
              first =
                  rest.first ∙ first_failure_assoc g.failure s.failure (failure_of rest.results);
              others = λ j n.
                  rest.others j (λ there. n (inr there))
                  ∙ get-set-other s.container i j g.containers (λ same. n (inl same));
              places = λ j there. elim there [
                | inl same ↦ (
                  s,
                  inl (same, refl),
                  ap (get_elem? group.containers) same
                      ∙ rest.others i fresh
                      ∙ get-set s.container i g.containers (omega arith),
                )
                | inr more ↦ let (t, r, placed) = rest.places j more in (t, inr r, placed)
              ];
            }
        | refused x h' q ↦ absurd (ground arith)
        | panicked h' q ↦ absurd (ground arith)
        | hung h' q ↦ absurd (ground arith)
      ]

  -- Whatever the order in which the goroutines come, one after the other, if no start panics or hangs, every preset is
  -- started once, whether or not others fail. The container of each stands at the index at which the
  -- preset was added, and the error is that of the start that was the first to fail, if one did.
  pub go-Ran :
      (order : List ℕ) (h k : History) (group : Group)
      → Schedule (length presets) order
      → go order presets h ≡ (ok group, k)
      → (results : List (ℕ × Started)) × Ran presets order h results k
        × ((i : ℕ)
            → i < length presets
            → (s : Started) × Returned i s results
              × (get_elem? group.containers i ≡ some s.container))
        × (group.failure ≡ failure_of results)
  unfolding go
  go-Ran order h k group (below, once, all) e =
      let done =
        run_each-Finishing order (no_containers presets) group h k below once
          (length-no_containers presets) e in
      (done.results, done.ran, λ i lt. done.places i (all i lt), done.first)
