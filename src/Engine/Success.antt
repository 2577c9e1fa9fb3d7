-- ===== src/Engine/Success.antt =====
-- What a success says of the parts of an action.
use gnomock.Base.{Text, ◌≡◌, ◌∷◌, arith, inl, inr}
use gnomock.Engine.Actions.{
  ◌>>=◌, M, wrapping, given, closing, ask, ok, ended, returned, refused, Reply-cases, panicked,
  hung,
}
use gnomock.Engine.{Reply, Call, History, reply, refuse}

pub bind-ok :
    {A B : Type 0} (m : M A) (f : A → M B) (h h' : History) (b : B)
    → (m >>= f) h ≡ (ok b, h')
    → (a : A) × (g : History) × (m h ≡ (ok a, g)) × (f a g ≡ (ok b, h'))
bind-ok m f h h' b e = elim (ended (m h)) [
  | returned a g p ↦ (a, g, p, ground arith)
  | refused x g p ↦ absurd (ground arith)
  | panicked g p ↦ absurd (ground arith)
  | hung g p ↦ absurd (ground arith)
]

pub wrapping-ok :
    {A : Type 0} (prefix : Text) (m : M A) (h h' : History) (a : A)
    → wrapping prefix m h ≡ (ok a, h')
    → m h ≡ (ok a, h')
wrapping-ok prefix m h h' a e = elim (ended (m h)) [
  | returned b g p ↦ ground arith
  | refused x g p ↦ absurd (ground arith)
  | panicked g p ↦ absurd (ground arith)
  | hung g p ↦ absurd (ground arith)
]

-- What is closed at the end has itself succeeded.
pub closing-ok :
    {A : Type 0} (close : Reply (Unit {0})) (m : M A) (h h' : History) (a : A)
    → closing close m h ≡ (ok a, h')
    → m h ≡ (ok a, h')
closing-ok (reply u) m h h' a e = ground arith
closing-ok (refuse x) m h h' a e = elim (ended (m h)) [
  | returned b g p ↦ absurd (ground arith)
  | refused y g p ↦ absurd (ground arith)
  | panicked g p ↦ absurd (ground arith)
  | hung g p ↦ absurd (ground arith)
]

pub given-ok :
    {A : Type 0} (r : Reply A) (h h' : History) (a : A)
    → given r h ≡ (ok a, h')
    → (r ≡ reply a) × (h' ≡ h)
given-ok (reply b) h h' a e = (ground arith, ground arith)
given-ok (refuse x) h h' a e = absurd (ground arith)

pub ask-ok :
    {A : Type 0} (call : Call) (f : History → Reply A) (h h' : History) (a : A)
    → ask call f h ≡ (ok a, h')
    → (f h ≡ reply a) × (h' ≡ call ∷ h)
ask-ok call f h h' a e = elim (Reply-cases (f h)) [
  | inl (b, p) ↦ (ground arith, ground arith)
  | inr (x, p) ↦ absurd (ground arith)
]
