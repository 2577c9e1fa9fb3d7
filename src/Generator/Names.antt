-- ===== src/Generator/Names.antt =====
-- cmd/generator/main.go: the functions of fMap that change the case of a name, on ASCII names.
use gnomock.Base.{
  Text, Bool, false, ℕ, ◌∷◌, [], leb, ◌&&◌, ◌||◌, ◌==◌, not, if◌then◌else◌, lower_byte, ◌≡◌, arith,
  ◌-◌, ap, refl, All, ◌∙◌,
}
use gnomock.Generator.{to_lower}

abbrev is_upper : ℕ → Bool
is_upper c = leb b'A' c && leb c b'Z'

abbrev is_lower : ℕ → Bool
is_lower c = leb b'a' c && leb c b'z'

abbrev is_digit : ℕ → Bool
is_digit c = leb b'0' c && leb c b'9'

-- isSeparator of the package strings, on ASCII.
abbrev is_separator : ℕ → Bool
is_separator c = not ((is_upper c || is_lower c) || (is_digit c || (c == b'_')))

unfoldable pub upper_byte : ℕ → ℕ
upper_byte c = if is_lower c then c - 32 else c

-- strings.Title, with the byte before the text.
unfoldable pub title_after : ℕ → Text → Text
title_after prev [] = []
title_after prev (c ∷ s) = (if is_separator prev then upper_byte c else c) ∷ title_after c s

-- The function `title` of fMap.
unfoldable pub title : Text → Text
unfolding title_after
title s = title_after b' ' (to_lower s)

-- Whether the two bytes after one that is no line feed make a match of matchFirstCap with it.
abbrev starts_word : ℕ → Text → Bool
starts_word c [] = false
starts_word c (u ∷ []) = false
starts_word c (u ∷ l ∷ s) = not (c == 10) && (is_upper u && is_lower l)

-- Where a replacement of matchFirstCap is: outside of a match, at its capital letter, or after it.
pub data Place : Type 0 where
  outside capital inside : Place

-- matchFirstCap.ReplaceAllString(s, "${1}_${2}")
unfoldable pub split_words : Place → Text → Text
split_words place [] = []
split_words outside (c ∷ s) =
    let word = split_words capital s in
    let rest = split_words outside s in if starts_word c s then c ∷ b'_' ∷ word else c ∷ rest
split_words capital (c ∷ s) = c ∷ split_words inside s
split_words inside (c ∷ s) =
    let same = split_words inside s in
    let word = split_words capital s in
    let rest = split_words outside s in
    if is_lower c then c ∷ same else if starts_word c s then c ∷ b'_' ∷ word else c ∷ rest

abbrev starts_upper : Text → Bool
starts_upper [] = false
starts_upper (c ∷ s) = is_upper c

-- matchAllCap.ReplaceAllString(s, "${1}_${2}"): the second byte of a match is never the first of
-- another.
unfoldable pub split_capitals : Text → Text
split_capitals [] = []
split_capitals (c ∷ s) =
    let rest = split_capitals s in
    if (is_lower c || is_digit c) && starts_upper s then c ∷ b'_' ∷ rest else c ∷ rest

-- The function `snake` of fMap.
unfoldable pub snake : Text → Text
unfolding split_words split_capitals
snake s = to_lower (split_capitals (split_words outside s))

abbrev NoUpper : Text → Type 0
NoUpper s = All (λ c. is_upper c ≡ false) s

to_lower-NoUpper : (s : Text) → NoUpper (to_lower s)
unfolding to_lower lower_byte
to_lower-NoUpper [] = tt
to_lower-NoUpper (c ∷ s) = (ground arith, to_lower-NoUpper s)

to_lower_same : (s : Text) → NoUpper s → to_lower s ≡ s
unfolding to_lower lower_byte
to_lower_same [] none_upper = refl
to_lower_same (c ∷ s) (other, rest) = ground (arith, to_lower_same s rest)

split_words_same : (s : Text) → NoUpper s → split_words outside s ≡ s
unfolding split_words
split_words_same [] none_upper = refl
split_words_same (c ∷ []) none_upper = refl
split_words_same (c ∷ u ∷ []) (other, rest) = ground (arith, split_words_same (u ∷ []) rest)
split_words_same (c ∷ u ∷ l ∷ s) (other, rest) = ground (arith, split_words_same (u ∷ l ∷ s) rest)

split_capitals_same : (s : Text) → NoUpper s → split_capitals s ≡ s
unfolding split_capitals
split_capitals_same [] none_upper = refl
split_capitals_same (c ∷ []) none_upper = ground arith
split_capitals_same (c ∷ u ∷ s) (other, rest) = ground (arith, split_capitals_same (u ∷ s) rest)

-- A name in snake case stays the same: it has no capital letter left.
snake_idem : (s : Text) → snake (snake s) ≡ snake s
unfolding snake
snake_idem s =
    let plain = to_lower-NoUpper (split_capitals (split_words outside s)) in
    let words = split_words_same (snake s) plain in
    let capitals = split_capitals_same (snake s) plain in
    ap (λ t. to_lower (split_capitals t)) words
    ∙ ap to_lower capitals
    ∙ to_lower_same (snake s) plain
