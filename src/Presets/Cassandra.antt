-- ===== src/Presets/Cassandra.antt =====
-- preset/cassandra/preset.go and options.go.
use gnomock.Engine.Actions.{M, ask, wrapping}
use gnomock.Ports.{default_tcp, NamedPorts}
use gnomock.Container.{Container, default_address}
use gnomock.Base.{if◌then◌else◌, [], Text, List, ◌∷◌, lit, is_empty, ◌++◌, pos}
use gnomock.Options.{Setting, with_healthcheck}
use gnomock.Engine.{History, client_call, Reply}

pub record P : Type 0 where
  pub version : Text

-- The answers of the cassandra client: an address, a user and a password.
pub record Client : Type 0 where
  pub creates_session : Text → Text → Text → History → Reply (Unit {0})

-- type Option func(*P)
abbrev pub CassandraOption : Type 0
CassandraOption = P → P

unfoldable pub with_version : Text → CassandraOption
with_version version p = record p { version = version }

abbrev pub default_user : Text
default_user = lit "cassandra"

abbrev pub default_password : Text
default_password = lit "cassandra"

abbrev pub default_version : Text
default_version = lit "3"

abbrev pub empty_preset : P
empty_preset = record { version = [] }

abbrev apply_options : List CassandraOption → P → P
apply_options [] p = p
apply_options (opt ∷ opts) p = apply_options opts (opt p)

unfoldable pub preset : List CassandraOption → P
preset opts = apply_options opts empty_preset

unfoldable pub image : P → Text
image p = lit "docker.io/library/cassandra:" ++ p.version

unfoldable pub ports : P → NamedPorts
unfolding default_tcp
ports p = default_tcp (pos 9042)

unfoldable pub set_defaults : P → P
set_defaults p = record p { version = if is_empty p.version then default_version else p.version }

module _ (s : Client) where
  -- Closing the session gives no error.
  unfoldable pub healthcheck : Container → M (Unit {0})
  healthcheck c =
      let addr = default_address c in
      wrapping (lit "failed to create a new session") (
        ask
          (client_call (lit "cassandra.CreateSession")
            (addr ∷ default_user ∷ default_password ∷ []))
          (s.creates_session addr default_user default_password))

  unfoldable pub options : P → List Setting × P
  options p = (with_healthcheck healthcheck ∷ [], set_defaults p)
