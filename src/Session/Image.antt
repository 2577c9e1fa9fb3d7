-- ===== src/Session/Image.antt =====
-- gnomock.go: buildImage.
use gnomock.Base.{
  Text, lit, split, split_parts_of_absent, contains_byte, List, [], ◌∷◌, ◌++◌, ◌≡◌, refl,
  if◌then◌else◌, arith, contains_byte-append, Bool-cases, inr, inl, split_parts_single, split_parts,
}

-- defaultTag
unfoldable pub default_tag : Text
default_tag = lit "latest"

tag_parts : Text → List Text → Text
unfolding default_tag
tag_parts image (part ∷ []) = part ++ (b':' ∷ default_tag)
tag_parts image _ = image

unfoldable pub build_image : Text → Text
unfolding tag_parts split
build_image image = tag_parts image (split b':' image)

-- An image with a colon anywhere in its name is left as it is; any other gets the tag `latest`.
pub build_image-eq-if :
    (image : Text)
    → build_image image
      ≡ (if contains_byte b':' image then image else image ++ (b':' ∷ default_tag))
unfolding build_image split
build_image-eq-if image = elim (Bool-cases (contains_byte b':' image)) [
  | inr untagged ↦ rw (untagged, split_parts_of_absent b':' image untagged) refl
  | inl tagged ↦ ground (arith, split_parts_single b':' image (split_parts b':' image).0)
]

-- The tag is added once: an image that has been built is not changed again.
pub build_image_idem : (image : Text) → build_image (build_image image) ≡ build_image image
unfolding contains_byte
build_image_idem image =
    rw (build_image-eq-if (build_image image), build_image-eq-if image)
      (ground (arith, contains_byte-append b':' image (b':' ∷ default_tag)))
