-- ===== src/Base/Assoc.antt =====
-- Go maps with string keys, as association lists in the order of an iteration.
use Prim.Native.Nat.{suc}
use mathlib.Core.Path.{◌≡◌, refl}
use mathlib.Core.Option.{Option, none, some}
use mathlib.Core.List.{List, [], ◌∷◌}
use native.Mathlib.Omega.{arith}
use gnomock.Base.Tests.{if◌then◌else◌}
use gnomock.Base.Lists.{length}
use gnomock.Base.Strings.{Text, text_eq, text_eq_iff}
use gnomock.Base.{◌≢◌, false, Bool-cases, inl, inr, text_eq_refl, ◌≤◌, any, All}

abbrev pub Assoc {ℓ} : Type ℓ → Type ℓ
Assoc V = List (Text × V)

module _ {ℓ} {V : Type ℓ} where
  unfoldable pub lookup : Text → Assoc V → Option V
  lookup k [] = none
  lookup k ((j, v) ∷ m) = if text_eq j k then some v else lookup k m

  -- m[k] = v
  unfoldable pub insert : Text → V → Assoc V → Assoc V
  insert k v [] = (k, v) ∷ []
  insert k v ((j, w) ∷ m) = if text_eq j k then (k, v) ∷ m else (j, w) ∷ insert k v m

  pub lookup-insert :
      (k j : Text) (v : V) (m : Assoc V)
      → lookup j (insert k v m) ≡ (if text_eq k j then some v else lookup j m)
  unfolding lookup insert
  lookup-insert k j v [] = refl
  lookup-insert k j v ((i, w) ∷ m) =
      ground (arith, text_eq_iff k j, text_eq_iff i k, text_eq_iff i j, lookup-insert k j v m)

  -- The number of keys grows by one exactly when the key is new.
  pub length-insert :
      (k : Text) (v : V) (m : Assoc V)
      → length (insert k v m) ≡ (elim (lookup k m) [ none ↦ suc (length m) | some _ ↦ length m ])
  unfolding lookup insert
  length-insert k v [] = refl
  length-insert k v ((i, w) ∷ m) = ground (arith, length-insert k v m)

-- No key is listed twice, as in every Go map.
abbrev pub NodupKeys {ℓ} : {V : Type ℓ} → Assoc V → Type ℓ
NodupKeys [] = Unit
NodupKeys ((k, v) ∷ m) = (lookup k m ≡ none) × NodupKeys m

module _ {ℓ} {V : Type ℓ} where
  pub insert-NodupKeys : (k : Text) (v : V) (m : Assoc V) → NodupKeys m → NodupKeys (insert k v m)
  unfolding lookup insert
  insert-NodupKeys k v [] u = (refl, tt)
  insert-NodupKeys k v ((j, w) ∷ m) (fresh, u) =
      ground
        (arith, insert-NodupKeys k v m u, lookup-insert k j v m, text_eq_iff k j, text_eq_iff j k)

  -- The map without the first entry of a key.
  erase : Text → Assoc V → Assoc V
  erase k [] = []
  erase k ((j, v) ∷ m) = if text_eq j k then m else (j, v) ∷ erase k m

  lookup-erase_ne :
      (k j : Text) (m : Assoc V) → text_eq j k ≡ false → lookup k (erase j m) ≡ lookup k m
  unfolding lookup erase
  lookup-erase_ne k j [] h = refl
  lookup-erase_ne k j ((i, v) ∷ m) h =
      ground (arith, lookup-erase_ne k j m, text_eq_iff i j, text_eq_iff i k, text_eq_iff j k)

  length-erase : (k : Text) (m : Assoc V) → lookup k m ≢ none → suc (length (erase k m)) ≡ length m
  unfolding lookup erase
  length-erase k [] h = absurd (h refl)
  length-erase k ((j, v) ∷ m) h = ground (arith, length-erase k m)

-- The keys of the first map are keys of the second.
abbrev pub SubKeys {ℓ κ} : {V : Type ℓ} {W : Type κ} → Assoc V → Assoc W → Type (ℓ ⊔ κ)
SubKeys a b = (k : Text) → lookup k a ≢ none → lookup k b ≢ none

module _ {ℓ κ} {V : Type ℓ} {W : Type κ} where
  -- A map with as many keys as another one, all of them keys of the other, has all its keys.
  pub SubKeys-full :
      (a : Assoc V) (b : Assoc W) → NodupKeys a → SubKeys a b → length a ≡ length b → SubKeys b a
  unfolding lookup
  SubKeys-full [] [] u sub len k h = absurd (h refl)
  SubKeys-full [] (q ∷ b) u sub len k h = absurd (omega arith)
  SubKeys-full ((j, v) ∷ a) b (fresh, u) sub len k h = elim (Bool-cases (text_eq j k)) [
    | inl same ↦ ground arith
    | inr other ↦
        let in_rest =
          SubKeys-full a (erase j b) u (λ i hi. rest_key i hi)
            (omega (arith, length-erase j b (sub j (ground (arith, text_eq_refl j))))) k
            (rw (lookup-erase_ne k j b other) h) in
        ground arith
  ]
    where
      rest_key : (i : Text) → lookup i a ≢ none → lookup i (erase j b) ≢ none
      rest_key i hi = elim (Bool-cases (text_eq j i)) [
        | inl e ↦ absurd (hi (ground (arith, text_eq_iff j i)))
        | inr n ↦ rw (lookup-erase_ne i j b n) (sub i (ground arith))
      ]

-- No text is listed twice.
abbrev pub Distinct : List Text → Type 0
Distinct [] = Unit
Distinct (t ∷ ts) = (any (text_eq t) ts ≡ false) × Distinct ts

-- Every listed text is a key of the map.
abbrev pub AllKeys {ℓ} : {V : Type ℓ} → Assoc V → List Text → Type ℓ
AllKeys m ts = All (λ t. lookup t m ≢ none) ts

module _ {ℓ} {V : Type ℓ} where
  erase-AllKeys :
      (k : Text) (ts : List Text) (m : Assoc V)
      → any (text_eq k) ts ≡ false
      → AllKeys m ts
      → AllKeys (erase k m) ts
  erase-AllKeys k [] m h all = all
  erase-AllKeys k (t ∷ ts) m h (one, all) =
      (rw (lookup-erase_ne t k m (ground arith)) one, erase-AllKeys k ts m (ground arith) all)

  -- A map has as many entries as distinct keys, at least.
  pub length-AllKeys :
      (ts : List Text) (m : Assoc V) → Distinct ts → AllKeys m ts → length ts ≤ length m
  length-AllKeys [] m d all = omega arith
  length-AllKeys (t ∷ ts) m (fresh, d) (one, all) = omega (
    arith,
    length-AllKeys ts (erase t m) d (erase-AllKeys t ts m fresh all),
    length-erase t m one,
  )
