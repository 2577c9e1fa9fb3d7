-- ===== src/Engine.antt =====
-- What the program calls and does not implement: docker, the network, the clock and the process
-- environment. An action sees the calls made so far and adds its own to them.
pub mod Actions
pub mod Trace
pub mod Success
pub mod Quiet
use gnomock.Base.{ℕ, ℤ, Text, Bool, Option, none, some, List, ◌∷◌}
use gnomock.Base.Assoc.{Assoc}
use gnomock.Container.{Container}
use gnomock.Errors.{GoError}

-- context.Context: the background, that of a request, or one with a timeout.
pub data Context : Type 0 where
  background : Context
  request : ℕ → Context
  with_timeout : Context → ℤ → Context

-- io.Writer
pub data Writer : Type 0 where
  discard : Writer
  pipe : ℕ → Writer

-- nat.PortBinding
pub record Binding : Type 0 where
  pub host_ip : Text
  pub host_port : Text

-- container.Config, container.HostConfig, network.NetworkingConfig and the name, as they are
-- passed to ContainerCreate.
pub record CreateRequest : Type 0 where
  pub image : Text
  pub exposed_ports : List Text
  pub env : List Text
  pub cmd : List Text
  pub entrypoint : List Text
  pub port_bindings : Assoc (List Binding)
  pub auto_remove : Bool
  pub privileged : Bool
  pub mounts : List (Text × Text)
  pub extra_hosts : List Text
  pub network : Option (Text × Text)
  pub name : Text

-- The calls that leave the program.
pub data Call : Type 0 where
  connect image_list read_pull close_pull : Call
  image_pull : Text → Text → Call
  container_create : CreateRequest → Call
  container_start container_inspect container_remove container_stop container_logs : Text → Call
  container_list : Text → Text → Call
  network_list : Text → Call
  select : Context → Call
  close_logs wait_logs : Text → Call
  http_get http_notify : Text → Call
  -- a health check or an initialization that a caller or a preset provides
  callback : ℕ → Container → Call
  -- a method of a client that a preset uses, with its arguments
  client_call : Text → List Text → Call

-- The calls so far, the last one first.
abbrev pub History : Type 0
History = List Call

-- The answer to one call.
pub data Reply (A : Type 0) : Type 0 where
  reply : A → Reply A
  refuse : GoError → Reply A

-- types.ContainerJSON: the parts of NetworkSettings that are read.
pub record Inspection : Type 0 where
  pub bound : Assoc (List Binding)
  pub gateway : Text

-- How the surroundings answer, which may depend on everything that was called before.
pub record World : Type 0 where
  pub getenv : Text → Text
  -- url.Parse and Hostname; `none` is a parse error
  pub url_hostname : Text → Option Text
  -- net.ResolveIPAddr of host.docker.internal
  pub host_docker_internal : Bool
  -- nat.Port: Proto and Int
  pub port_proto : Text → Text
  pub port_int : Text → ℤ
  pub connects : History → Reply (Unit {0})
  pub images : History → Reply (List (List Text))
  pub pulls : Text → Text → History → Reply (Unit {0})
  pub reads_pull : History → Reply (Unit {0})
  pub closes_pull : History → Reply (Unit {0})
  pub creates : CreateRequest → History → Reply Text
  pub starts : Text → History → Reply (Unit {0})
  pub inspects : Text → History → Reply Inspection
  pub lists : Text → Text → History → Reply (List Text)
  pub removes : Text → History → Reply (Unit {0})
  pub stops : Text → History → Reply (Unit {0})
  pub logs : Text → History → Reply (Unit {0})
  pub networks : Text → History → Reply (List (Text × Text))
  -- true when a `select` finds the context done, false when its other branch goes first
  pub done : Context → History → Bool
  pub closes_logs : Text → History → Reply (Unit {0})
  pub copies_logs : Text → History → Reply (Unit {0})
  pub gets : Text → History → Reply ℕ
  -- the session identifier and the logger of newG in debug mode
  pub session : History → Reply (Unit {0})
  -- whether a goroutine that was just started runs before the code that started it goes on, or
  -- only when that code waits for it or ends
  pub eager : History → Bool
