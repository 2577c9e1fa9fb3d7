-- ===== src/Options.antt =====
-- options.go: the configuration of a container and the options that build it.
pub mod Merge
use gnomock.Base.{
  ℤ, pos, Text, lit, ltb_ℤ, Bool, true, false, Option, none, some, List, [], ◌∷◌, ◌++◌, foldl,
  if◌then◌else◌,
}
use gnomock.Base.Assoc.{Assoc, insert}
use gnomock.Ports.{NamedPorts}
use gnomock.Container.{Container}
use gnomock.Engine.{Context, background, Writer, discard}
use gnomock.Engine.Actions.{M, pure}

-- HealthcheckFunc and InitFunc
abbrev pub Callback : Type 0
Callback = Container → M (Unit {0})

unfoldable pub nop_healthcheck : Callback
nop_healthcheck c = pure tt

unfoldable pub nop_init : Callback
nop_init c = pure tt

-- Durations are in nanoseconds. A nil slice or a nil map of strings is an empty one, since the
-- source only ranges over it and takes its length; CustomNamedPorts is compared with nil.
pub record Options : Type 0 where
  pub timeout : ℤ
  pub env : List Text
  pub debug : Bool
  pub privileged : Bool
  pub container_name : Text
  pub cmd : List Text
  pub entrypoint : List Text
  pub host_mounts : Assoc Text
  pub disable_auto_cleanup : Bool
  pub use_local_images_first : Bool
  pub custom_named_ports : Option NamedPorts
  pub auth : Text
  pub extra_hosts : List Text
  pub reuse : Bool
  pub networks : List Text
  pub ctx : Context
  pub init : Callback
  pub healthcheck : Callback
  pub healthcheck_interval : ℤ
  pub log_writer : Writer

-- type Option func(*Options)
abbrev pub Setting : Type 0
Setting = Options → Options

unfoldable pub with_context : Context → Setting
with_context ctx o = record o { ctx = ctx }

unfoldable pub with_init : Callback → Setting
with_init f o = record o { init = f }

unfoldable pub with_healthcheck : Callback → Setting
with_healthcheck f o = record o { healthcheck = f }

unfoldable pub with_healthcheck_interval : ℤ → Setting
with_healthcheck_interval t o = record o { healthcheck_interval = t }

unfoldable pub with_timeout : ℤ → Setting
with_timeout t o = record o { timeout = t }

unfoldable pub with_env : Text → Setting
with_env env o = record o { env = o.env ++ env ∷ [] }

unfoldable pub with_log_writer : Writer → Setting
with_log_writer w o = record o { log_writer = w }

unfoldable pub with_debug_mode : Setting
with_debug_mode o = record o { debug = true }

unfoldable pub with_container_name : Text → Setting
with_container_name name o = record o { container_name = name }

unfoldable pub with_networks : List Text → Setting
with_networks networks o = record o { networks = o.networks ++ networks }

unfoldable pub with_privileged : Setting
with_privileged o = record o { privileged = true }

unfoldable pub with_options : Options → Setting
with_options options o = record o {
  timeout = if ltb_ℤ (pos 0) options.timeout then options.timeout else o.timeout;
  custom_named_ports = elim options.custom_named_ports [
    | none ↦ o.custom_named_ports
    | some ports ↦ some ports
  ];
  env = o.env ++ options.env;
  debug = options.debug;
  container_name = options.container_name;
}

unfoldable pub with_command : Text → List Text → Setting
with_command cmd args o = record o { cmd = cmd ∷ args }

unfoldable pub with_entrypoint : Text → List Text → Setting
with_entrypoint entrypoint args o = record o { entrypoint = entrypoint ∷ args }

unfoldable pub with_host_mounts : Text → Text → Setting
with_host_mounts src dst o = record o { host_mounts = insert src dst o.host_mounts }

unfoldable pub with_disable_auto_cleanup : Setting
with_disable_auto_cleanup o = record o { disable_auto_cleanup = true }

unfoldable pub with_use_local_images_first : Setting
with_use_local_images_first o = record o { use_local_images_first = true }

unfoldable pub with_custom_named_ports : Option NamedPorts → Setting
with_custom_named_ports ports o = record o { custom_named_ports = ports }

unfoldable pub with_registry_auth : Text → Setting
with_registry_auth auth o = record o { auth = auth }

unfoldable pub with_container_reuse : Setting
with_container_reuse o = record o { reuse = true }

unfoldable pub with_extra_hosts : List Text → Setting
with_extra_hosts hosts o = record o { extra_hosts = hosts }

-- 300 seconds and 250 milliseconds
abbrev pub default_timeout : ℤ
default_timeout = pos 300_000_000_000

abbrev pub default_healthcheck_interval : ℤ
default_healthcheck_interval = pos 250_000_000

abbrev pub initial : Options
initial = record {
  timeout = default_timeout;
  env = [];
  debug = false;
  privileged = false;
  container_name = [];
  cmd = [];
  entrypoint = [];
  host_mounts = [];
  disable_auto_cleanup = false;
  use_local_images_first = false;
  custom_named_ports = none;
  auth = [];
  extra_hosts = [];
  reuse = false;
  networks = [];
  ctx = background;
  init = nop_init;
  healthcheck = nop_healthcheck;
  healthcheck_interval = default_healthcheck_interval;
  log_writer = discard;
}

abbrev pub apply_all : List Setting → Options → Options
apply_all [] o = o
apply_all (opt ∷ opts) o = apply_all opts (opt o)

unfoldable pub build_config : List Setting → Options
build_config opts = apply_all opts initial
