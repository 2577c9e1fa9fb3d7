-- ===== src/Presets/Influxdb.antt =====
-- preset/influxdb/preset.go and options.go.
pub mod Health
use gnomock.Engine.Actions.{◌>>=◌, ◌>>◌, M, ask, wrapping, pure, fail}
use gnomock.Ports.{default_tcp, NamedPorts}
use gnomock.Container.{Container, default_address}
use gnomock.Base.{
  [], Text, List, ◌∷◌, lit, if◌then◌else◌, ◌++◌, pos, not, is_empty, ℕ, text_eq, ◌==◌,
}
use gnomock.Options.{Setting, with_healthcheck, with_env}
use gnomock.Engine.{History, Call, client_call, Reply}
use gnomock.Errors.{plain}

pub record P : Type 0 where
  pub version : Text
  pub username : Text
  pub password : Text
  pub org : Text
  pub bucket : Text
  pub auth_token : Text

-- The answers of the influxdb client, for an address and a token.
pub record Client : Type 0 where
  -- the status of the health
  pub health : Text → Text → History → Reply Text
  -- the number of the buckets of an organization
  pub buckets : Text → Text → Text → History → Reply ℕ

-- type Option func(*P)
abbrev pub InfluxdbOption : Type 0
InfluxdbOption = P → P

unfoldable pub with_version : Text → InfluxdbOption
with_version version p = record p { version = version }

unfoldable pub with_user : Text → Text → InfluxdbOption
with_user username password p = record p { username = username; password = password }

unfoldable pub with_org : Text → InfluxdbOption
with_org org p = record p { org = org }

unfoldable pub with_bucket : Text → InfluxdbOption
with_bucket bucket p = record p { bucket = bucket }

unfoldable pub with_auth_token : Text → InfluxdbOption
with_auth_token token p = record p { auth_token = token }

abbrev pub default_version : Text
default_version = lit "2.0.4-alpine"

abbrev pub default_username : Text
default_username = lit "gnomock"

abbrev pub default_password : Text
default_password = lit "gnomock-password"

abbrev pub default_org : Text
default_org = lit "gnomock-org"

abbrev pub default_bucket : Text
default_bucket = lit "gnomock-bucket"

abbrev pub default_auth_token : Text
default_auth_token = lit "gnomock-influxdb-token"

abbrev pub empty_preset : P
empty_preset = record {
  version = [];
  username = [];
  password = [];
  org = [];
  bucket = [];
  auth_token = [];
}

abbrev apply_options : List InfluxdbOption → P → P
apply_options [] p = p
apply_options (opt ∷ opts) p = apply_options opts (opt p)

unfoldable pub preset : List InfluxdbOption → P
preset opts = apply_options opts empty_preset

unfoldable pub image : P → Text
image p = lit "docker.io/influxdb:" ++ p.version

unfoldable pub ports : P → NamedPorts
unfolding default_tcp
ports p = default_tcp (pos 8086)

abbrev or_default : Text → Text → Text
or_default given_text default_text = if is_empty given_text then default_text else given_text

unfoldable pub set_defaults : P → P
set_defaults p = record p {
  version = or_default p.version default_version;
  username = or_default p.username default_username;
  password = or_default p.password default_password;
  org = or_default p.org default_org;
  bucket = or_default p.bucket default_bucket;
  auth_token = or_default p.auth_token default_auth_token;
}

-- domain.HealthCheckStatusPass
abbrev pub status_pass : Text
status_pass = lit "pass"

unfoldable pub health_call : Text → Text → Call
health_call addr token = client_call (lit "influxdb.Health") (addr ∷ token ∷ [])

unfoldable pub buckets_call : Text → Text → Text → Call
buckets_call addr token org =
    client_call (lit "influxdb.FindBucketsByOrgName") (addr ∷ token ∷ org ∷ [])

abbrev pub http_address : Container → Text
http_address c = lit "http://" ++ default_address c

module _ (s : Client) where
  -- The client is closed at the end, which gives no error.
  unfoldable pub healthcheck : P → Container → M (Unit {0})
  healthcheck p c = do
    let addr = http_address c
    status ←
        wrapping (lit "influxdb Health() return error")
          (ask (health_call addr p.auth_token) (s.health addr p.auth_token))
    if not (text_eq status status_pass)
        then fail (plain (lit "unexpected health status '" ++ (status ++ lit "'")))
        else do
          n ←
              wrapping (lit "can't list influxdb buckets")
                (ask (buckets_call addr p.auth_token p.org) (s.buckets addr p.auth_token p.org))
          if n == 0 then fail (plain (lit "no buckets exist")) else pure tt

  unfoldable pub options : P → List Setting × P
  options p =
      let p' = set_defaults p in
      (
        with_healthcheck (healthcheck p')
            ∷ with_env (lit "DOCKER_INFLUXDB_INIT_MODE=setup")
            ∷ with_env (lit "DOCKER_INFLUXDB_INIT_USERNAME=" ++ p'.username)
            ∷ with_env (lit "DOCKER_INFLUXDB_INIT_PASSWORD=" ++ p'.password)
            ∷ with_env (lit "DOCKER_INFLUXDB_INIT_ORG=" ++ p'.org)
            ∷ with_env (lit "DOCKER_INFLUXDB_INIT_BUCKET=" ++ p'.bucket)
            ∷ with_env (lit "DOCKER_INFLUXDB_INIT_ADMIN_TOKEN=" ++ p'.auth_token)
            ∷ [],
        p',
      )
