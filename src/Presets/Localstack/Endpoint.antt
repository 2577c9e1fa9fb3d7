-- ===== src/Presets/Localstack/Endpoint.antt =====
-- Which port serves the health check of a released version.
use gnomock.Base.{
  Text, ℕ, split, ◌≡◌, ◌<◌, ◌++◌, lit, Bool, ◌∷◌, ◌^◌, ◌==◌, ◌&&◌, arith, [], split_parts-append,
  ltb, if◌then◌else◌, false, ◌||◌, split_parts_of_absent, refl, Bool-cases, text_eq, inl,
  text_eq_iff, inr,
}
use gnomock.Base.Decimal.{atoi-digits, contains_byte-digits, digits, atoi}
use gnomock.Presets.Localstack.{
  P, health_check_address, has_old_endpoint, health_url, default_version, web_port, api_port,
}
use gnomock.Container.{Container}
use gnomock.Base.Int.{int_eq}

-- major.minor.patch
abbrev pub release : ℕ → ℕ → ℕ → Text
release a b c = digits a ++ (b'.' ∷ (digits b ++ (b'.' ∷ digits c)))

-- Up to 0.11.2.
abbrev pub before_0_11_3 : ℕ → ℕ → ℕ → Bool
before_0_11_3 a b c = a == 0 && (ltb b 11 || (b == 11 && ltb c 3))

split-release : (a b c : ℕ) → split b'.' (release a b c) ≡ digits a ∷ digits b ∷ digits c ∷ []
unfolding split
split-release a b c = ground (
  arith,
  split_parts-append b'.' (digits a) (digits b ++ (b'.' ∷ digits c))
      (contains_byte-digits b'.' a (omega arith)),
  split_parts-append b'.' (digits b) (digits c) (contains_byte-digits b'.' b (omega arith)),
  split_parts_of_absent b'.' (digits c) (contains_byte-digits b'.' c (omega arith)),
)

has_old_endpoint-release :
    (a b c : ℕ)
    → a < 2 ^ 63
    → b < 2 ^ 63
    → c < 2 ^ 63
    → has_old_endpoint (split b'.' (release a b c)) ≡ before_0_11_3 a b c
unfolding has_old_endpoint int_eq
has_old_endpoint-release a b c ha hb hc =
    ground (arith, split-release a b c, atoi-digits a ha, atoi-digits b hb, atoi-digits c hc)

-- The default version is no exception to the rule.
default_version-is_new : has_old_endpoint (split b'.' default_version) ≡ false
unfolding has_old_endpoint split lit atoi int_eq
default_version-is_new = refl

-- For a version of three numbers, the health check asks the web port if the version is older than
-- 0.11.3, and the API port otherwise.
pub health_check_address_lem :
    (p : P) (c : Container) (major minor patch : ℕ)
    → major < 2 ^ 63
    → minor < 2 ^ 63
    → patch < 2 ^ 63
    → p.version ≡ release major minor patch
    → health_check_address p c
      ≡ health_url (if before_0_11_3 major minor patch then web_port else api_port) c
unfolding health_check_address
health_check_address_lem p c major minor patch ha hb hc e =
    elim (Bool-cases (text_eq p.version default_version)) [
      | inl same ↦
          let v = (text_eq_iff p.version default_version).0 same in
          ground
            (arith, has_old_endpoint-release major minor patch ha hb hc, default_version-is_new)
      | inr other ↦ ground (arith, has_old_endpoint-release major minor patch ha hb hc)
    ]
