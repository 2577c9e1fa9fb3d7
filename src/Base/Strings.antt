-- ===== src/Base/Strings.antt =====
-- Go strings as lists of bytes, with what the source uses of the package `strings`.
use Prim.Native.Nat.{ℕ, ◌+◌}
use Prim.Native.Char.{code}
use Prim.Native.String.{String}
use mathlib.Core.Path.{◌≡◌, refl}
use mathlib.Core.Logic.{◌↔◌}
use mathlib.Core.Bool.{Bool, true, false, ◌&&◌, ◌||◌}
use mathlib.Core.List.{List, [], ◌∷◌, ◌++◌}
use native.Mathlib.Omega.{arith}
use gnomock.Base.Tests.{leb, ◌==◌, if◌then◌else◌, ==_iff}

abbrev pub Text : Type 0
Text = List ℕ

-- A literal. It is shut, so that proofs do not spell it out.
unfoldable pub lit : String → Text
lit String.[] = []
lit (String.◌∷◌ c s) = code c ∷ lit s

unfoldable pub text_eq : Text → Text → Bool
text_eq [] [] = true
text_eq (a ∷ s) (b ∷ t) = a == b && text_eq s t
text_eq [] (b ∷ t) = false
text_eq (a ∷ s) [] = false

pub text_eq_iff : (s t : Text) → (text_eq s t ≡ true) ↔ (s ≡ t)
unfolding text_eq
text_eq_iff [] [] = ground arith
text_eq_iff (a ∷ s) (b ∷ t) = ground (arith, text_eq_iff s t)
text_eq_iff [] (b ∷ t) = ground arith
text_eq_iff (a ∷ s) [] = ground arith

pub text_eq_refl : (s : Text) → text_eq s s ≡ true
text_eq_refl s = (text_eq_iff s s).1 refl

abbrev pub is_empty : Text → Bool
is_empty [] = true
is_empty (c ∷ s) = false

-- strings.HasPrefix(s, prefix)
unfoldable pub has_prefix : Text → Text → Bool
has_prefix s [] = true
has_prefix [] (b ∷ p) = false
has_prefix (a ∷ s) (b ∷ p) = a == b && has_prefix s p

pub has_prefix-append : (p s : Text) → has_prefix (p ++ s) p ≡ true
unfolding has_prefix
has_prefix-append [] s = refl
has_prefix-append (a ∷ p) s = ground (arith, has_prefix-append p s)

-- strings.HasSuffix(s, suffix): some tail of `s` is `suffix`.
unfoldable pub has_suffix : Text → Text → Bool
unfolding text_eq
has_suffix [] t = text_eq [] t
has_suffix (a ∷ s) t = text_eq (a ∷ s) t || has_suffix s t

pub has_suffix-append : (s t : Text) → has_suffix (s ++ t) t ≡ true
unfolding has_suffix
has_suffix-append [] [] = ground arith
has_suffix-append [] (b ∷ t) = ground (arith, text_eq_refl (b ∷ t))
has_suffix-append (a ∷ s) t = ground (arith, has_suffix-append s t)

-- strings.Contains(s, sub)
unfoldable pub contains : Text → Text → Bool
unfolding has_prefix
contains [] t = has_prefix [] t
contains (a ∷ s) t = has_prefix (a ∷ s) t || contains s t

unfoldable pub contains_byte : ℕ → Text → Bool
contains_byte b [] = false
contains_byte b (c ∷ s) = c == b || contains_byte b s

pub contains_byte-append :
    (b : ℕ) (s t : Text) → contains_byte b (s ++ t) ≡ (contains_byte b s || contains_byte b t)
unfolding contains_byte
contains_byte-append b [] t = refl
contains_byte-append b (c ∷ s) t = ground (arith, contains_byte-append b s t)

-- strings.Split(s, sep) for a separator of one byte. The first part is returned apart, since
-- there is always one.
unfoldable pub split_parts : ℕ → Text → Text × List Text
split_parts sep [] = ([], [])
split_parts sep (c ∷ s) =
    let (part, parts) = split_parts sep s in
    if c == sep then ([], part ∷ parts) else (c ∷ part, parts)

unfoldable pub split : ℕ → Text → List Text
unfolding split_parts
split sep s = let (part, parts) = split_parts sep s in part ∷ parts

pub split_parts_of_absent :
    (sep : ℕ) (s : Text) → contains_byte sep s ≡ false → split_parts sep s ≡ (s, [])
unfolding split_parts contains_byte
split_parts_of_absent sep [] h = refl
split_parts_of_absent sep (c ∷ s) h = ground (arith, split_parts_of_absent sep s)

-- A text without the separator, the separator and the rest.
pub split_parts-append :
    (sep : ℕ) (s t : Text)
    → contains_byte sep s ≡ false
    → split_parts sep (s ++ sep ∷ t) ≡ (s, split sep t)
unfolding split contains_byte
split_parts-append sep [] t h = ground arith
split_parts-append sep (c ∷ s) t h = ground (arith, split_parts-append sep s t)

-- A single part says that the separator is absent.
pub split_parts_single :
    (sep : ℕ) (s part : Text) → split_parts sep s ≡ (part, []) → contains_byte sep s ≡ false
unfolding split_parts contains_byte
split_parts_single sep [] part h = refl
split_parts_single sep (c ∷ s) part h =
    ground (arith, split_parts_single sep s (split_parts sep s).0)

-- strings.ToLower on ASCII letters, and strings.EqualFold on ASCII texts.
unfoldable pub lower_byte : ℕ → ℕ
lower_byte c = if leb b'A' c && leb c b'Z' then c + 32 else c

unfoldable pub equal_fold : Text → Text → Bool
unfolding lower_byte
equal_fold [] [] = true
equal_fold (a ∷ s) (b ∷ t) = lower_byte a == lower_byte b && equal_fold s t
equal_fold [] (b ∷ t) = false
equal_fold (a ∷ s) [] = false

pub equal_fold_refl : (s : Text) → equal_fold s s ≡ true
unfolding equal_fold
equal_fold_refl [] = refl
equal_fold_refl (a ∷ s) = ground (arith, equal_fold_refl s, ==_iff (lower_byte a) (lower_byte a))
