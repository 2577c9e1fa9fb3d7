-- ===== src/Engine/Quiet.antt =====
-- Actions that return and do not wait.
use gnomock.Base.{Text, ◌≢◌, ◌≡◌, arith, refl, ap, sym, ◌∙◌}
use gnomock.Engine.Actions.{
  ◌>>=◌, M, wrapping, given, ended, closing, stuck, returned, refused, panicked, Result, hung,
}
use gnomock.Engine.Trace.{rounds}
use gnomock.Engine.{Reply, History, reply, refuse}

-- The action returns, and makes no `select`.
abbrev pub Quiet : {A : Type 0} → M A → History → Type 0
Quiet m h = ((m h).0 ≢ stuck) × (rounds (m h).1 ≡ rounds h)

pub bind-Quiet :
    {A B : Type 0} (m : M A) (f : A → M B) (h : History)
    → Quiet m h
    → ((a : A) (g : History) → Quiet (f a) g)
    → Quiet (m >>= f) h
bind-Quiet {A = A} m f h (r, q) k = elim (ended (m h)) [
  | returned a g p ↦
      let kept : rounds g ≡ rounds h = ap (λ (x : Result A × History). rounds x.1) (sym p) ∙ q in
      (λ e. (k a g).0 (ground arith), ground (arith, (k a g).1))
  | refused x g p ↦ (λ e. ground arith, ground arith)
  | panicked g p ↦ (λ e. ground arith, ground arith)
  | hung g p ↦ absurd (ground arith)
]

pub wrapping-Quiet :
    {A : Type 0} (prefix : Text) (m : M A) (h : History) → Quiet m h → Quiet (wrapping prefix m) h
wrapping-Quiet prefix m h (r, q) = elim (ended (m h)) [
  | returned a g p ↦ (λ e. ground arith, ground arith)
  | refused x g p ↦ (λ e. ground arith, ground arith)
  | panicked g p ↦ (λ e. ground arith, ground arith)
  | hung g p ↦ absurd (ground arith)
]

pub closing-Quiet :
    {A : Type 0} (close : Reply (Unit {0})) (m : M A) (h : History)
    → Quiet m h
    → Quiet (closing close m) h
closing-Quiet (reply u) m h q = q
closing-Quiet (refuse x) m h (r, q) = elim (ended (m h)) [
  | returned a g p ↦ (λ e. ground arith, ground arith)
  | refused y g p ↦ (λ e. ground arith, ground arith)
  | panicked g p ↦ (λ e. ground arith, ground arith)
  | hung g p ↦ absurd (ground arith)
]

pub given-Quiet : {A : Type 0} (r : Reply A) (h : History) → Quiet (given r) h
given-Quiet (reply a) h = (λ e. ground arith, refl)
given-Quiet (refuse x) h = (λ e. ground arith, refl)
