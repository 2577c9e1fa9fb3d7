-- ===== src/Presets/Localstack.antt =====
-- preset/localstack/preset.go and options.go.
pub mod Calls
pub mod Services
pub mod S3
pub mod Health
pub mod Endpoint
use gnomock.Engine.Actions.{◌>>=◌, ◌>>◌, M, pure, given, wrapping, ask, fail, closing, look}
use gnomock.Base.{
  Text, lit, if◌then◌else◌, [], Option, List, Bool, ◌∷◌, ◌++◌, text_eq, is_empty, ◌||◌, split, pos,
  none, ltb, false, some, length, ◌&&◌, true,
}
use gnomock.Presets.Localstack.Calls.{Client}
use gnomock.Ports.{tcp, NamedPorts}
use gnomock.Container.{Container, address}
use gnomock.Base.Decimal.{atoi, digits}
use gnomock.Base.Assoc.{lookup, Assoc}
use gnomock.Options.{Setting, with_healthcheck, with_env, with_init}
use gnomock.Errors.{GoError, plain}
use gnomock.Presets.Localstack.S3.{init_s3}
use gnomock.Engine.{http_get}
use gnomock.Base.Int.{ltb_ℤ, int_eq}

pub record P : Type 0 where
  pub services : List Text
  pub s3_path : Text
  pub version : Text

-- type Option func(*P)
abbrev pub LocalstackOption : Type 0
LocalstackOption = P → P

unfoldable pub with_services : List Text → LocalstackOption
with_services services p = record p { services = p.services ++ services }

unfoldable pub with_version : Text → LocalstackOption
with_version version p = record p { version = version }

-- WithS3Files
unfoldable pub with_s3_files : Text → LocalstackOption
with_s3_files path p = record p { s3_path = path }

abbrev pub default_version : Text
default_version = lit "0.14.0"

abbrev pub web_port : Text
web_port = lit "web"

-- APIPort
abbrev pub api_port : Text
api_port = lit "api"

-- S3
abbrev pub s3 : Text
s3 = lit "s3"

abbrev pub empty_preset : P
empty_preset = record { services = []; s3_path = []; version = [] }

abbrev apply_options : List LocalstackOption → P → P
apply_options [] p = p
apply_options (opt ∷ opts) p = apply_options opts (opt p)

unfoldable pub preset : List LocalstackOption → P
preset opts = apply_options opts empty_preset

unfoldable pub image : P → Text
image p = lit "docker.io/localstack/localstack:" ++ p.version

unfoldable pub ports : P → NamedPorts
unfolding tcp
ports p = (web_port, tcp (pos 8080)) ∷ (api_port, tcp (pos 4566)) ∷ []

unfoldable pub set_defaults : P → P
set_defaults p = if is_empty p.version then record p { version = default_version } else p

-- Whether `/health` is found at the web port, for the three parts of a version.
before_move : Text → Text → Text → Bool
unfolding atoi
before_move major minor patch = elim (atoi major) [
  | none ↦ false
  | some a ↦ if ltb_ℤ (pos 0) a then false else elim (atoi minor) [
    | none ↦ false
    | some b ↦ if ltb_ℤ (pos 11) b then false else elim (atoi patch) [
      | none ↦ false
      | some c ↦ if int_eq b (pos 11) && ltb_ℤ (pos 2) c then false else true
    ]
  ]
]

unfoldable pub has_old_endpoint : List Text → Bool
unfolding before_move
has_old_endpoint (major ∷ minor ∷ patch ∷ []) = before_move major minor patch
has_old_endpoint _ = false

unfoldable pub health_url : Text → Container → Text
health_url port c = lit "http://" ++ (address c port ++ lit "/health")

unfoldable pub health_check_address : P → Container → Text
health_check_address p c =
    if text_eq p.version default_version
    then health_url api_port c
    else if has_old_endpoint (split b'.' p.version)
    then health_url web_port c
    else health_url api_port c

-- hr.Services[service]: a missing service has the empty status.
unfoldable pub status_of : Text → Assoc Text → Text
unfolding lookup
status_of service reported = elim (lookup service reported) [ none ↦ [] | some status ↦ status ]

unfoldable pub is_up : Text → Bool
is_up status = text_eq status (lit "running") || text_eq status (lit "available")

unfoldable pub check_services : List Text → Assoc Text → Option GoError
check_services [] reported = none
check_services (service ∷ services) reported =
    let rest = check_services services reported in
    if is_up (status_of service reported)
    then rest
    else some (plain (lit "service '" ++ (service ++ lit "' is not running")))

-- What is wrong with the reported services. The message does not list them.
unfoldable pub health_problem : List Text → Assoc Text → Option GoError
health_problem services reported =
    if ltb (length reported) (length services)
    then some (
        plain (
          lit "not enough active services: want "
          ++ (digits (length services) ++ (lit " got " ++ digits (length reported)))))
    else check_services services reported

abbrev report : Option GoError → M (Unit {0})
report none = pure tt
report (some e) = fail e

module _ (s : Client) where
  unfoldable pub healthcheck : P → List Text → Container → M (Unit {0})
  healthcheck p services c = do
    let addr = health_check_address p c
    given (s.new_request addr)
    ask (http_get addr) (s.do_request addr)
    closing s.close_body
        (do reported ← (look s.decode >>= λ r. given r); report (health_problem services reported))

  init_services : P → List Text → Container → M (Unit {0})
  init_services p [] c = pure tt
  init_services p (service ∷ services) c =
      if text_eq service s3
      then (wrapping (lit "can't init s3 storage") (init_s3 s p.s3_path c)
          >> init_services p services c)
      else init_services p services c

  unfoldable pub initf : P → Container → M (Unit {0})
  unfolding init_services
  initf p c = init_services p p.services c

  unfoldable pub join : List Text → Text
  join [] = []
  join (t ∷ []) = t
  join (t ∷ u ∷ ts) = t ++ (b',' ∷ join (u ∷ ts))

  unfoldable pub options : P → List Setting × P
  options p =
      let p' = set_defaults p in
      (
        with_healthcheck (healthcheck p' p'.services)
            ∷ with_env (lit "SERVICES=" ++ join p'.services)
            ∷ with_init (initf p')
            ∷ [],
        p',
      )
