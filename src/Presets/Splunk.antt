-- ===== src/Presets/Splunk.antt =====
-- preset/splunk/preset.go and options.go, and initf of init.go.
pub mod Requests
pub mod Collector
pub mod Ingest
pub mod Sent
use gnomock.Base.{
  Text, none, some, lit, if◌then◌else◌, Option, Bool, ◌++◌, is_empty, List, ℤ, ℕ, pos, not, [], ◌∷◌,
  true, false, any, text_eq, suc, length, zero,
}
use gnomock.Engine.Actions.{
  ◌>>=◌, ◌>>◌, value, failed, Tried, M, wrapping, try, pure, look, hang, crash, given, fail,
  closing, kept_if,
}
use gnomock.Presets.Splunk.Collector.{
  api_port, api_uri, collector_port, collector_uri, ingest, post_form,
}
use gnomock.Presets.Splunk.Requests.{Client, Event, insecure_request, is_conflict}
use gnomock.Ports.{tcp, NamedPorts}
use gnomock.Engine.{World, Context}
use gnomock.Container.{Container, address}
use gnomock.Errors.{GoError, wrap, error, error_as, plain, canceled}
use gnomock.Base.Decimal.{atoi, itoa}
use gnomock.Options.{Setting, with_healthcheck, with_env, with_init}
use gnomock.Docker.Client.{select_done}
use gnomock.Base.Int.{add_int64, int_eq}

-- `none` is a nil slice of values.
pub record P : Type 0 where
  pub values : Option (List Event)
  pub values_file : Text
  pub accept_license : Bool
  pub admin_password : Text
  pub version : Text

-- type Option func(*P)
abbrev pub SplunkOption : Type 0
SplunkOption = P → P

unfoldable pub with_version : Text → SplunkOption
with_version version p = record p { version = version }

unfoldable pub with_values : Option (List Event) → SplunkOption
with_values values p = record p { values = values }

unfoldable pub with_values_file : Text → SplunkOption
with_values_file file p = record p { values_file = file }

unfoldable pub with_license : Bool → SplunkOption
with_license accept p = record p { accept_license = accept }

unfoldable pub with_password : Text → SplunkOption
with_password password p = record p { admin_password = password }

abbrev pub default_version : Text
default_version = lit "latest"

abbrev pub empty_preset : P
empty_preset = record {
  values = none;
  values_file = [];
  accept_license = false;
  admin_password = [];
  version = [];
}

abbrev apply_options : List SplunkOption → P → P
apply_options [] p = p
apply_options (opt ∷ opts) p = apply_options opts (opt p)

unfoldable pub preset : List SplunkOption → P
preset opts = apply_options opts empty_preset

unfoldable pub image : P → Text
image p = lit "docker.io/splunk/splunk:" ++ p.version

unfoldable pub ports : P → NamedPorts
unfolding tcp
ports p =
    (collector_port, tcp (pos 8088)) ∷ (api_port, tcp (pos 8089)) ∷ (lit "web", tcp (pos 8000)) ∷ []

unfoldable pub set_defaults : P → P
set_defaults p = record p { version = if is_empty p.version then default_version else p.version }

-- `ctx` is the context that the start passes to the health check and to the initialization.
module _ (w : World) (s : Client) (ctx : Context) where
  unfoldable pub check_api : Container → Text → M (Unit {0})
  check_api c password = do
    _ ← post_form w s ctx password (api_uri c (lit "/services/auth/login")) (
        s.encode (
          (lit "username", lit "admin")
          ∷ (lit "password", password)
          ∷ (lit "output_mode", lit "json")
          ∷ []))
    pure tt

  unfoldable pub check_hec : Container → M (Unit {0})
  check_hec c = do
    _ ←
        insecure_request s (lit "GET") [] false (collector_uri c (lit "/services/collector/health"))
          []
    pure tt

  unfoldable pub healthcheck : Text → Container → M (Unit {0})
  healthcheck password c = check_api c password >> check_hec c

  -- The loop of the decoder.
  unfoldable pub read_events : List (Tried Event) → M (List Event)
  read_events [] = pure []
  read_events (failed e ∷ rest) = fail (wrap (lit "can't read initial event") e)
  read_events (value e ∷ rest) = do events ← read_events rest; pure (e ∷ events)

  abbrev or_empty : Option (List Event) → List Event
  or_empty none = []
  or_empty (some events) = events

  abbrev ingest_all : ℕ → P → Container → List Event → M (Unit {0})
  ingest_all fuel p c events =
      wrapping (lit "can't ingest events") (ingest w s ctx fuel c p.admin_password events)

  -- The deferred function assigns the error of Close to an `err` of the inner block, where it is
  -- dropped.
  unfoldable pub initf : ℕ → P → Container → M (Unit {0})
  initf fuel p c = if is_empty p.values_file then ingest_all fuel p c (or_empty p.values) else do
    wrapping (lit "can't open values file '" ++ (p.values_file ++ lit "'"))
        (given (s.opens_file p.values_file))
    events ← read_events (s.decodes p.values_file)
    ingest_all fuel p c (events ++ or_empty p.values)

  -- The preset after initf, which puts the events of the file before its own.
  unfoldable pub after_initf : P → P
  after_initf p =
      if is_empty p.values_file
      then p
      else kept_if
          ((given (s.opens_file p.values_file) >> read_events (s.decodes p.values_file)) []).0
          (λ events. record p { values = some (events ++ or_empty p.values) }) p

  abbrev has_values : P → Bool
  has_values p = elim p.values [ none ↦ not (is_empty p.values_file) | some events ↦ true ]

  unfoldable pub options : ℕ → P → List Setting × P
  options fuel p =
      let p' = set_defaults p in
      (
        (with_healthcheck (healthcheck p'.admin_password)
              ∷ with_env (lit "SPLUNK_PASSWORD=" ++ p'.admin_password)
              ∷ [])
            ++ ((if p'.accept_license
                  then with_env (lit "SPLUNK_START_ARGS=--accept-license") ∷ []
                  else [])
                ++ (if has_values p' then with_init (initf fuel p') ∷ [] else [])),
        p',
      )
