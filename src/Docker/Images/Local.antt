-- ===== src/Docker/Images/Local.antt =====
-- Which images are taken for local ones.
use gnomock.Base.{
  Text, List, [], ◌∷◌, ◌++◌, ◌≡◌, ◌⊎◌, ◌↔◌, true, false, arith, contains_byte, has_suffix-append,
  lit, has_suffix, text_eq, text_eq_iff, Bool-cases, inl, inr, any,
}
use gnomock.Docker.Images.{qualified, is_listed}

-- The image is the tag with anything in front of it; a tag without a slash is one of `library`.
abbrev pub EndsWithTag : Text → Text → Type 0
EndsWithTag image tag =
    (prefix : Text) × (((contains_byte b'/' tag ≡ true) × (image ≡ prefix ++ tag))
      ⊎ ((contains_byte b'/' tag ≡ false) × (image ≡ prefix ++ (lit "library/" ++ tag))))

abbrev pub EndsWithOne : Text → List Text → Type 0
EndsWithOne image [] = ⊥
EndsWithOne image (tag ∷ tags) = EndsWithTag image tag ⊎ EndsWithOne image tags

-- For some of the images, given by their tags.
abbrev pub TakenForLocal : Text → List (List Text) → Type 0
TakenForLocal image [] = ⊥
TakenForLocal image (tags ∷ images) = EndsWithOne image tags ⊎ TakenForLocal image images

has_suffix_split : (s t : Text) → has_suffix s t ≡ true → (prefix : Text) × (s ≡ prefix ++ t)
unfolding has_suffix
has_suffix_split [] t e = ([], (text_eq_iff [] t).0 e)
has_suffix_split (a ∷ s) t e = elim (Bool-cases (text_eq (a ∷ s) t)) [
  | inl same ↦ ([], (text_eq_iff (a ∷ s) t).0 same)
  | inr other ↦ let (prefix, q) = has_suffix_split s t (ground arith) in (a ∷ prefix, ground arith)
]

qualified-EndsWithTag :
    (image tag : Text) → (has_suffix image (qualified tag) ≡ true) ↔ EndsWithTag image tag
unfolding qualified
qualified-EndsWithTag image tag = elim (Bool-cases (contains_byte b'/' tag)) [
  | inl slash ↦ (
    λ e. let (prefix, q) = has_suffix_split image tag (ground arith) in (prefix, inl (slash, q)),
    λ (prefix, which). elim which [
      | inl (_, q) ↦ ground (arith, has_suffix-append prefix tag)
      | inr (none_there, q) ↦ absurd (ground arith)
    ],
  )
  | inr plain ↦ (
    λ e.
        let (prefix, q) = has_suffix_split image (lit "library/" ++ tag) (ground arith) in
        (prefix, inr (plain, q)),
    λ (prefix, which). elim which [
      | inl (there, q) ↦ absurd (ground arith)
      | inr (_, q) ↦ ground (arith, has_suffix-append prefix (lit "library/" ++ tag))
    ],
  )
]

any-EndsWithOne :
    (image : Text) (tags : List Text)
    → (any (λ tag. has_suffix image (qualified tag)) tags ≡ true) ↔ EndsWithOne image tags
any-EndsWithOne image [] = ground arith
any-EndsWithOne image (tag ∷ tags) =
    let this = qualified-EndsWithTag image tag in
    let these = any-EndsWithOne image tags in
    (
      λ e. elim (Bool-cases (has_suffix image (qualified tag))) [
        | inl found ↦ inl (this.0 found)
        | inr other ↦ inr (these.0 (ground arith))
      ],
      λ which. elim which [
        | inl w ↦ let found = this.1 w in ground arith
        | inr w ↦ let found = these.1 w in ground arith
      ],
    )

-- An image counts as local exactly if it is a tag of some listed image with anything in front of it,
-- where a tag without a slash stands for one of `library`. The test does not look at the bounds of
-- the parts: `docker.io/alice/app:1` counts as local when `e/app:1` is listed.
pub is_listed-TakenForLocal :
    (image : Text) (images : List (List Text))
    → (is_listed image images ≡ true) ↔ TakenForLocal image images
unfolding is_listed
is_listed-TakenForLocal image [] = ground arith
is_listed-TakenForLocal image (tags ∷ images) =
    let this = any-EndsWithOne image tags in
    let these = is_listed-TakenForLocal image images in
    (
      λ e. elim (Bool-cases (any (λ tag. has_suffix image (qualified tag)) tags)) [
        | inl found ↦ inl (this.0 found)
        | inr other ↦ inr (these.0 (ground arith))
      ],
      λ which. elim which [
        | inl w ↦ let found = this.1 w in ground arith
        | inr w ↦ let found = these.1 w in ground arith
      ],
    )
