-- ===== src/Container/Identifiers.antt =====
-- The identifier that joins a container to its sidecar, and the addresses.
use gnomock.Base.{
  ℕ, suc, ◌≤◌, Text, ◌≡◌, refl, false, ◌∷◌, [], length, take, arith, contains_byte,
  split_parts_of_absent, split_parts-append, split,
}
use gnomock.Container.{truncate, generate_id, parse_id}

take-length : (n : ℕ) (s : Text) → length s ≤ n → take n s ≡ s
take-length ℕ.zero [] h = refl
take-length (suc n) [] h = refl
take-length ℕ.zero (c ∷ s) h = absurd (omega arith)
take-length (suc n) (c ∷ s) h = ground (arith, take-length n s)

truncate-eq-take : (s : Text) → truncate s ≡ take 10 s
unfolding truncate
truncate-eq-take s = ground (arith, take-length 10 s)

contains_byte-take :
    (b n : ℕ) (s : Text) → contains_byte b s ≡ false → contains_byte b (take n s) ≡ false
unfolding contains_byte
contains_byte-take b ℕ.zero s h = refl
contains_byte-take b (suc n) [] h = refl
contains_byte-take b (suc n) (c ∷ s) h = ground (arith, contains_byte-take b n s)

-- Two identifiers without a dash can be read back from the joint one, each cut to its first ten
-- bytes.
pub parse_id-generate_id :
    (id sidecar : Text)
    → contains_byte b'-' id ≡ false
    → contains_byte b'-' sidecar ≡ false
    → parse_id (generate_id id sidecar) ≡ (take 10 id, take 10 sidecar)
unfolding parse_id generate_id split
parse_id-generate_id id sidecar h k =
    rw (truncate-eq-take id, truncate-eq-take sidecar)
      (rw (split_parts-append b'-' (take 10 id) (take 10 sidecar) (contains_byte-take b'-' 10 id h))
        (rw (split_parts_of_absent b'-' (take 10 sidecar) (contains_byte-take b'-' 10 sidecar k))))

-- An identifier without a dash, such as docker's own, is its own docker identifier and names no
-- sidecar.
pub parse_id_plain : (id : Text) → contains_byte b'-' id ≡ false → parse_id id ≡ (id, [])
unfolding parse_id split
parse_id_plain id h = rw (split_parts_of_absent b'-' id h) refl
