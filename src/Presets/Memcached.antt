-- ===== src/Presets/Memcached.antt =====
-- preset/memcached/preset.go and options.go.
pub mod Values
use gnomock.Base.{
  none, some, if◌then◌else◌, [], Text, Option, List, ◌∷◌, lit, is_empty, ◌++◌, pos, ◌||◌, Bool,
  false, true,
}
use gnomock.Engine.Actions.{◌>>=◌, ◌>>◌, M, ask, wrapping, pure}
use gnomock.Ports.{default_tcp, NamedPorts, default_port}
use gnomock.Container.{Container, address}
use gnomock.Options.{Setting, with_healthcheck, with_init}
use gnomock.Engine.{History, Call, client_call, Reply}
use gnomock.Base.Assoc.{Assoc}
use gnomock.Base.Decimal.{itoa}

-- A map is none if it is nil.
pub record P : Type 0 where
  pub values : Option (Assoc Text)
  pub byte_values : Option (Assoc Text)
  pub version : Text

-- The answers of the memcached client, for an address.
pub record Client : Type 0 where
  pub sets : Text → Text → Text → History → Reply (Unit {0})
  pub pings : Text → History → Reply (Unit {0})

-- type Option func(*P)
abbrev pub MemcachedOption : Type 0
MemcachedOption = P → P

unfoldable pub with_values : Option (Assoc Text) → MemcachedOption
with_values vs p = record p { values = vs }

unfoldable pub with_byte_values : Option (Assoc Text) → MemcachedOption
with_byte_values vs p = record p { byte_values = vs }

unfoldable pub with_version : Text → MemcachedOption
with_version version p = record p { version = version }

abbrev pub default_version : Text
default_version = lit "1.6.9"

abbrev pub empty_preset : P
empty_preset = record { values = none; byte_values = none; version = [] }

abbrev apply_options : List MemcachedOption → P → P
apply_options [] p = p
apply_options (opt ∷ opts) p = apply_options opts (opt p)

unfoldable pub preset : List MemcachedOption → P
preset opts = apply_options opts empty_preset

unfoldable pub image : P → Text
image p = lit "docker.io/library/memcached:" ++ p.version

unfoldable pub ports : P → NamedPorts
unfolding default_tcp
ports p = default_tcp (pos 11211)

unfoldable pub set_defaults : P → P
set_defaults p = record p { version = if is_empty p.version then default_version else p.version }

unfoldable pub set_call : Text → Text → Text → Call
set_call addr k v = client_call (lit "memcached.Set") (addr ∷ k ∷ v ∷ [])

unfoldable pub numbers : Text → Text
numbers [] = []
numbers (b ∷ []) = itoa (pos b)
numbers (b ∷ bs) = itoa (pos b) ++ (b' ' ∷ numbers bs)

-- %v of a slice of bytes.
unfoldable pub format_bytes : Text → Text
unfolding numbers
format_bytes bs = b'[' ∷ (numbers bs ++ (b']' ∷ []))

-- A nil map has no entries.
unfoldable pub entries : Option (Assoc Text) → Assoc Text
entries none = []
entries (some m) = m

abbrev is_set : Option (Assoc Text) → Bool
is_set none = false
is_set (some m) = true

module _ (s : Client) where
  unfoldable pub healthcheck : Container → M (Unit {0})
  healthcheck c =
      let addr = address c default_port in
      ask (client_call (lit "memcached.Ping") (addr ∷ [])) (s.pings addr)

  -- Both loops, in the order of the iteration: `show` is what %v prints of a value.
  unfoldable pub set_each : (Text → Text) → Text → Assoc Text → M (Unit {0})
  set_each show addr [] = pure tt
  set_each show addr ((k, v) ∷ rest) =
      wrapping (lit "can't set '" ++ (k ++ (lit "'='" ++ (show v ++ lit "'"))))
        (ask (set_call addr k v) (s.sets addr k v))
      >> set_each show addr rest

  unfoldable pub initf : P → Container → M (Unit {0})
  initf p c =
      let addr = address c default_port in
      set_each format_bytes addr (entries p.byte_values)
      >> set_each (λ v. v) addr (entries p.values)

  unfoldable pub options : P → List Setting × P
  options p =
      let p' = set_defaults p in
      (
        with_healthcheck healthcheck
            ∷ (if is_set p'.byte_values || is_set p'.values then with_init (initf p') ∷ [] else []),
        p',
      )
