-- ===== src/Presets/Localstack/Health.antt =====
-- When the health check finds nothing wrong.
use gnomock.Base.{
  Text, List, ◌≡◌, ◌∷◌, true, none, lit, ◌↔◌, text_eq, All, ◌≢◌, arith, [], ltb, length, tests,
  Bool-cases, inl, inr,
}
use gnomock.Presets.Localstack.{health_problem, check_services, status_of, is_up}
use gnomock.Base.Assoc.{Assoc, lookup, Distinct, AllKeys, length-AllKeys}

-- The reported status of a service says that it runs or is available.
abbrev pub IsUp : Assoc Text → Text → Type 0
IsUp reported service = is_up (status_of service reported) ≡ true

check_services-All :
    (services : List Text) (reported : Assoc Text)
    → (check_services services reported ≡ none) ↔ All (IsUp reported) services
unfolding check_services
check_services-All [] reported = ground arith
check_services-All (t ∷ ts) reported = ground (arith, check_services-All ts reported)

-- A service that is up is reported.
lookup-of-IsUp : (t : Text) (reported : Assoc Text) → IsUp reported t → lookup t reported ≢ none
unfolding status_of is_up lit text_eq
lookup-of-IsUp t reported up e = ground arith

IsUp-AllKeys :
    (services : List Text) (reported : Assoc Text)
    → All (IsUp reported) services
    → AllKeys reported services
IsUp-AllKeys [] reported all = all
IsUp-AllKeys (t ∷ ts) reported (one, all) =
    (lookup-of-IsUp t reported one, IsUp-AllKeys ts reported all)

-- If no service is requested twice, the check passes exactly when every requested service is
-- reported to run or to be available: the test on the number of services changes nothing.
pub health_problem-none :
    (services : List Text) (reported : Assoc Text)
    → Distinct services
    → (health_problem services reported ≡ none) ↔ All (IsUp reported) services
unfolding health_problem
health_problem-none services reported d =
    elim (Bool-cases (ltb (length reported) (length services))) [
      | inl few ↦ (
        λ e. absurd (ground arith),
        λ all. absurd (too_few (IsUp-AllKeys services reported all) few),
      )
      | inr enough ↦ ground (arith, check_services-All services reported)
    ]
  where
    too_few : AllKeys reported services → ltb (length reported) (length services) ≡ true → ⊥
    too_few all few = omega (tests, length-AllKeys services reported d all)
