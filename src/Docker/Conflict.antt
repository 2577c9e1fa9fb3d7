-- ===== src/Docker/Conflict.antt =====
-- docker.go: duplicateContainerPattern, as a matcher over the text of an error.
use gnomock.Base.{
  ℕ, ◌≡◌, refl, Text, lit, leb, is_empty, Option, none, some, [], ◌∷◌, ◌&&◌, ◌||◌, Bool, ◌==◌,
  if◌then◌else◌,
}

-- The rest after a literal.
after : Text → Text → Option Text
after [] s = some s
after (c ∷ p) [] = none
after (c ∷ p) (d ∷ s) = if c == d then after p s else none

-- The rest after `.`
after_any : Text → Option Text
after_any [] = none
after_any (c ∷ s) = if c == 10 then none else some s

-- \w
is_word : ℕ → Bool
is_word c =
    (leb b'0' c && leb c b'9')
    || (leb b'A' c && leb c b'Z')
    || (leb b'a' c && leb c b'z')
    || c == b'_'

span_word : Text → Text × Text
unfolding is_word
span_word [] = ([], [])
span_word (c ∷ s) =
    let (word, rest) = span_word s in if is_word c then (c ∷ word, rest) else ([], c ∷ s)

infixl 5 ◌>>=◌
abbrev ◌>>=◌ : {A B : Type 0} → Option A → (A → Option B) → Option B
none >>= f = none
some a >>= f = f a

-- (\w+) and what follows it
match_id : Text → Option Text
unfolding after after_any span_word lit
match_id s = do
  let (id, rest) = span_word s
  dot ← after (lit "\"") rest
  advice ← after_any dot
  last ←
      after (lit " You have to remove (or rename) that container to be able to reuse that name")
        advice
  _ ← after_any last
  if is_empty id then none else some id

-- (?:.+?) up to the closing quote, the shortest first
match_name : Text → Option Text
unfolding match_id
match_name [] = none
match_name (c ∷ s) =
    let longer = match_name s in
    let here = (do rest ← after (lit "\" is already in use by container \"") s; match_id rest) in
    if c == 10 then none else elim here [ some id ↦ some id | none ↦ longer ]

match_here : Text → Option Text
unfolding match_name
match_here s = do
  dot ← after (lit "Conflict") s
  rest ← after_any dot
  name ← after (lit " The container name \"") rest
  match_name name

-- FindStringSubmatch: the group of the leftmost match, `none` where nothing matches.
unfoldable pub duplicate_of : Text → Option Text
unfolding match_here
duplicate_of [] = match_here []
duplicate_of (c ∷ s) = elim (match_here (c ∷ s)) [ some id ↦ some id | none ↦ duplicate_of s ]

conflict_test :
    duplicate_of (
      lit
        "Error: Conflict. The container name \"/web\" is already in use by container \"0a1B\". You have to remove (or rename) that container to be able to reuse that name.")
    ≡ some (lit "0a1B")
unfolding duplicate_of
conflict_test = refl
