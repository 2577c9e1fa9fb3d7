-- ===== src/Base/FilePaths.antt =====
-- path.Ext, path.Base, strings.TrimSuffix and strings.TrimPrefix.
use gnomock.Base.{
  Text, ◌++◌, take, has_suffix, contains_byte, ◌≡◌, ◌∷◌, length, if◌then◌else◌, ◌-◌, not, false,
  arith, length-append, is_empty, [], ◌==◌, refl, has_suffix-append, ◌&&◌, lit, Bool-cases, inl,
  inr, has_prefix-append, has_prefix, true,
}

-- The rest from the last dot of the last element of a path.
unfoldable pub path_ext : Text → Text
unfolding contains_byte
path_ext [] = []
path_ext (c ∷ s) =
    let rest = path_ext s in
    if not (is_empty rest)
    then rest
    else if c == b'.' && not (contains_byte b'/' s)
    then c ∷ s
    else []

unfoldable pub trim_suffix : Text → Text → Text
unfolding has_suffix
trim_suffix s t = if has_suffix s t then take (length s - length t) s else s

pub path_ext_of_absent : (s : Text) → contains_byte b'.' s ≡ false → path_ext s ≡ []
unfolding path_ext
path_ext_of_absent [] h = refl
path_ext_of_absent (c ∷ s) h = ground (arith, path_ext_of_absent s)

-- The extension of a name that has one.
pub path_ext-append :
    (s e : Text)
    → contains_byte b'.' e ≡ false
    → contains_byte b'/' e ≡ false
    → path_ext (s ++ b'.' ∷ e) ≡ b'.' ∷ e
unfolding path_ext contains_byte
path_ext-append [] e h k = ground (arith, path_ext_of_absent e h)
path_ext-append (c ∷ s) e h k = ground (arith, path_ext-append s e h k)

take-append : (s t : Text) → take (length s) (s ++ t) ≡ s
take-append [] t = refl
take-append (c ∷ s) t = ground (arith, take-append s t)

pub trim_suffix-append : (s t : Text) → trim_suffix (s ++ t) t ≡ s
unfolding trim_suffix
trim_suffix-append s t =
    let len : length (s ++ t) - length t ≡ length s = omega (arith, length-append s t) in
    ground (arith, has_suffix-append s t, take-append s t)

take_all : (s : Text) → take (length s) s ≡ s
take_all [] = refl
take_all (c ∷ s) = ground (arith, take_all s)

pub trim_suffix_nil : (s : Text) → trim_suffix s [] ≡ s
unfolding trim_suffix
trim_suffix_nil s = elim (Bool-cases (has_suffix s [])) [
  | inl p ↦ ground (arith, take_all s)
  | inr p ↦ ground arith
]

unfoldable strip_slashes : Text → Text
strip_slashes [] = []
strip_slashes (c ∷ s) =
    let rest = strip_slashes s in if is_empty rest && c == b'/' then [] else c ∷ rest

unfoldable after_slash : Text → Text
unfolding contains_byte
after_slash [] = []
after_slash (c ∷ s) = if contains_byte b'/' (c ∷ s) then after_slash s else c ∷ s

-- path.Base: the last element, without the slashes at the end.
unfoldable pub path_base : Text → Text
unfolding strip_slashes after_slash lit
path_base s =
    let base = after_slash (strip_slashes s) in
    if is_empty s then lit "." else if is_empty base then lit "/" else base

unfoldable pub drop_prefix : Text → Text → Text
drop_prefix s [] = s
drop_prefix [] (b ∷ p) = []
drop_prefix (c ∷ s) (b ∷ p) = drop_prefix s p

-- strings.TrimPrefix(s, prefix)
unfoldable pub trim_prefix : Text → Text → Text
unfolding has_prefix drop_prefix
trim_prefix s p = if has_prefix s p then drop_prefix s p else s

drop_prefix_lem : (s p : Text) → has_prefix s p ≡ true → s ≡ p ++ drop_prefix s p
unfolding has_prefix drop_prefix
drop_prefix_lem s [] e = refl
drop_prefix_lem [] (b ∷ p) e = absurd (ground arith)
drop_prefix_lem (a ∷ s) (b ∷ p) e = ground (arith, drop_prefix_lem s p)

-- A text with a prefix is that prefix and what TrimPrefix leaves.
pub trim_prefix_lem : (s p : Text) → has_prefix s p ≡ true → s ≡ p ++ trim_prefix s p
unfolding trim_prefix
trim_prefix_lem s p e = ground (arith, drop_prefix_lem s p)

drop_prefix-append : (p s : Text) → drop_prefix (p ++ s) p ≡ s
unfolding drop_prefix
drop_prefix-append [] s = refl
drop_prefix-append (c ∷ p) s = drop_prefix-append p s

pub trim_prefix-append : (p s : Text) → trim_prefix (p ++ s) p ≡ s
unfolding trim_prefix
trim_prefix-append p s = ground (arith, has_prefix-append p s, drop_prefix-append p s)
