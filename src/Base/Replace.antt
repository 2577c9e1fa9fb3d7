-- ===== src/Base/Replace.antt =====
-- strings.ReplaceAll.
use gnomock.Base.{
  [], ◌∷◌, true, false, has_prefix, contains, Text, ◌≡◌, ◌++◌, ℕ, zero, length, suc, refl, arith,
  ◌-◌, has_prefix-append,
}

-- Skips the rest of an occurrence, and then replaces.
unfoldable replace_from : Text → Text → ℕ → Text → Text
unfolding has_prefix
replace_from old new skip [] = []
replace_from old new (suc skip) (c ∷ s) = replace_from old new skip s
replace_from old new zero (c ∷ s) = elim (has_prefix (c ∷ s) old) [
  | true ↦ new ++ replace_from old new (length old - 1) s
  | false ↦ c ∷ replace_from old new zero s
]

-- strings.ReplaceAll(s, old, new) for an `old` that is not empty.
unfoldable pub replace_all : Text → Text → Text → Text
unfolding replace_from
replace_all s old new = replace_from old new zero s

-- No occurrence of `old` begins in `before`, which stands before `rest`.
abbrev pub Before : Text → Text → Text → Type 0
Before old [] rest = Unit
Before old (c ∷ before) rest =
    (has_prefix (c ∷ (before ++ rest)) old ≡ false) × Before old before rest

pub replace_all_of_absent : (s old new : Text) → contains s old ≡ false → replace_all s old new ≡ s
unfolding replace_all contains
replace_all_of_absent [] old new h = refl
replace_all_of_absent (c ∷ s) old new h = ground (arith, replace_all_of_absent s old new)

replace_from-skip :
    (old new skipped s : Text)
    → replace_from old new (length skipped) (skipped ++ s) ≡ replace_from old new zero s
unfolding replace_from
replace_from-skip old new [] s = refl
replace_from-skip old new (c ∷ skipped) s = replace_from-skip old new skipped s

-- The text up to the first occurrence is kept, and the occurrence is replaced.
pub replace_all-Before :
    (before after new : Text) (b : ℕ) (old : Text)
    → Before (b ∷ old) before ((b ∷ old) ++ after)
    → replace_all (before ++ ((b ∷ old) ++ after)) (b ∷ old) new
      ≡ before ++ (new ++ replace_all after (b ∷ old) new)
unfolding replace_all
replace_all-Before [] after new b old h =
    ground (arith, has_prefix-append old after, replace_from-skip (b ∷ old) new old after)
replace_all-Before (c ∷ before) after new b old (h, k) =
    ground (arith, replace_all-Before before after new b old k)
