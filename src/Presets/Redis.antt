-- ===== src/Presets/Redis.antt =====
-- preset/redis/preset.go and options.go.
pub mod Values
use gnomock.Base.{none, some, if◌then◌else◌, [], Text, Option, List, ◌∷◌, lit, is_empty, ◌++◌, pos}
use gnomock.Engine.Actions.{◌>>=◌, ◌>>◌, M, ask, wrapping, pure}
use gnomock.Ports.{default_tcp, NamedPorts, default_port}
use gnomock.Container.{Container, address}
use gnomock.Base.Assoc.{Assoc}
use gnomock.Options.{Setting, with_healthcheck, with_init}
use gnomock.Engine.{History, Call, client_call, Reply}

-- A Go value of any type is its text for %v; `values` is none for a nil map.
pub record P : Type 0 where
  pub values : Option (Assoc Text)
  pub version : Text

-- The answers of the redis client, for an address.
pub record Client : Type 0 where
  pub sets : Text → Text → Text → History → Reply (Unit {0})
  pub pings : Text → History → Reply (Unit {0})

-- type Option func(*P)
abbrev pub RedisOption : Type 0
RedisOption = P → P

unfoldable pub with_values : Option (Assoc Text) → RedisOption
with_values vs p = record p { values = vs }

unfoldable pub with_version : Text → RedisOption
with_version version p = record p { version = version }

abbrev pub default_version : Text
default_version = lit "6.0.9"

abbrev pub empty_preset : P
empty_preset = record { values = none; version = [] }

abbrev apply_options : List RedisOption → P → P
apply_options [] p = p
apply_options (opt ∷ opts) p = apply_options opts (opt p)

unfoldable pub preset : List RedisOption → P
preset opts = apply_options opts empty_preset

unfoldable pub image : P → Text
image p = lit "docker.io/library/redis:" ++ p.version

unfoldable pub ports : P → NamedPorts
unfolding default_tcp
ports p = default_tcp (pos 6379)

unfoldable pub set_defaults : P → P
set_defaults p = record p { version = if is_empty p.version then default_version else p.version }

unfoldable pub set_call : Text → Text → Text → Call
set_call addr k v = client_call (lit "redis.Set") (addr ∷ k ∷ v ∷ [])

module _ (s : Client) where
  unfoldable pub healthcheck : Container → M (Unit {0})
  healthcheck c =
      let addr = address c default_port in
      ask (client_call (lit "redis.Ping") (addr ∷ [])) (s.pings addr)

  -- The loop over the map, in the order of its iteration.
  unfoldable pub set_each : Text → Assoc Text → M (Unit {0})
  set_each addr [] = pure tt
  set_each addr ((k, v) ∷ rest) =
      wrapping (lit "can't set '" ++ (k ++ (lit "'='" ++ (v ++ lit "'"))))
        (ask (set_call addr k v) (s.sets addr k v))
      >> set_each addr rest

  unfoldable pub initf : Assoc Text → Container → M (Unit {0})
  initf values c = set_each (address c default_port) values

  unfoldable pub options : P → List Setting × P
  options p =
      let p' = set_defaults p in
      (
        with_healthcheck healthcheck
            ∷ elim p'.values [ none ↦ [] | some values ↦ with_init (initf values) ∷ [] ],
        p',
      )
