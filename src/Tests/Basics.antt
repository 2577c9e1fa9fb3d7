-- ===== src/Tests/Basics.antt =====
-- Ports, identifiers, images, options, errors and numbers.
use gnomock.Base.{
  pos, negsuc, lit, ◌≡◌, refl, none, some, [], ◌∷◌, ◌++◌, arith, split, contains_byte,
}
use gnomock.Base.Decimal.{itoa, atoi, atoi-itoa, digits}
use gnomock.Container.{generate_id, parse_id}
use gnomock.Container.Identifiers.{parse_id-generate_id}
use gnomock.Errors.{invalid_start, plain, wrap, error_code}
use gnomock.Errors.Codes.{error_code-eq-code_of}
use gnomock.Session.Image.{build_image, default_tag, build_image-eq-if}

itoa_tests :
    (itoa (negsuc 41) ≡ lit "-42") × (atoi (lit "+7") ≡ some (pos 7)) × (atoi (lit "7a") ≡ none)
unfolding itoa atoi lit digits
itoa_tests = (refl, refl, refl)

atoi-itoa_example : atoi (itoa (negsuc 41)) ≡ some (negsuc 41)
atoi-itoa_example = atoi-itoa (negsuc 41) (omega arith)

parse_id-generate_id_example :
    parse_id (generate_id (lit "0123456789ab") (lit "fedcba9876543"))
    ≡ (lit "0123456789", lit "fedcba9876")
unfolding lit contains_byte
parse_id-generate_id_example =
    parse_id-generate_id (lit "0123456789ab") (lit "fedcba9876543") refl refl

build_image-eq-if_example : build_image (lit "redis") ≡ lit "redis" ++ (b':' ∷ default_tag)
unfolding lit contains_byte
build_image-eq-if_example = build_image-eq-if (lit "redis")

-- A registry's port is taken for a tag.
registry_port : build_image (lit "localhost:5000/redis") ≡ lit "localhost:5000/redis"
unfolding build_image split lit
registry_port = refl

error_code-eq-code_of_example : error_code (wrap (lit "x") (invalid_start (plain []))) ≡ 400
error_code-eq-code_of_example = error_code-eq-code_of (wrap (lit "x") (invalid_start (plain [])))
