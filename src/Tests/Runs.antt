-- ===== src/Tests/Runs.antt =====
-- A whole start, with its sidecar.
use gnomock.Base.{
  none, some, if◌then◌else◌, lit, [], split, text_eq, equal_fold, has_prefix, ◌≡◌, Text, Option,
  Bool, ◌∷◌, refl, pos, leb,
}
use gnomock.Ports.{find, get, default_tcp, default_port, tcp}
use gnomock.Tests.Worlds.{calm, web}
use gnomock.Internal.{http_get, with_scheme, notify, cleaner_image}
use gnomock.Engine.{History, World, Inspection, reply}
use gnomock.Engine.Actions.{Result, ok}
use gnomock.Session.Create.{
  Started, start_custom, setup_container_cleanup, start_custom_with, finish_start,
  setup_log_forwarding, make_ready, sidecar_options, new_container, start, Preset,
}
use gnomock.Options.{
  build_config, nop_init, nop_healthcheck, with_disable_auto_cleanup, with_host_mounts,
  with_healthcheck, with_init, with_use_local_images_first, with_container_reuse,
  with_container_name,
}
use gnomock.Session.Stop.{new_session}
use gnomock.Docker.Client.{docker_connect, is_in_docker, host_addr, select_done, read_logs}
use gnomock.Docker.Start.{start_container, start_new_container, bring_up, find_reusable_container}
use gnomock.Docker.Create.{
  prepare_container, has_local_image, pull_unless, create_container, network_config, create_request,
}
use gnomock.Docker.Images.{pull_image}
use gnomock.Docker.Network.{
  exposed_ports, container_port, port_bindings, wanted_host_port, binding_addr,
  wait_for_container_network, inspect_network, bound_named_ports,
}
use gnomock.Base.Decimal.{itoa, digits, atoi}
use gnomock.Base.Assoc.{insert}
use gnomock.Container.{docker_id, generate_id, default_address, address, port, parse_id}
use gnomock.Session.Wait.{wait, wait_loop, initf, env_aware_clone, reachable_host}
use gnomock.Session.Image.{build_image, default_tag}
use gnomock.Base.Int.{int_eq}
use gnomock.Engine.Trace.{rounds}
use gnomock.Session.Create.Ready.{Ready, start-Ready}

abbrev is_sidecar : Text → Bool
is_sidecar id = text_eq id (lit "fedcba987654")

abbrev binding : Text → Inspection
binding port = record {
  bound = (port, record { host_ip = []; host_port = lit "32768" } ∷ []) ∷ [];
  gateway = [];
}

-- Two containers: the sidecar listens on port 8008, the other one on port 80.
abbrev two : World
two = record calm {
  port_int = λ port. if text_eq port (lit "8008/tcp") then pos 8008 else pos 80;
  creates = λ request h. reply (
      if has_prefix request.image (lit "docker.io/orlangure/gnomock-cleaner")
      then lit "fedcba987654"
      else lit "0123456789ab");
  inspects =
      λ id h. reply (if is_sidecar id then binding (lit "8008/tcp") else binding (lit "80/tcp"));
  done = λ ctx h. leb 9 (rounds h);
}

abbrev id_of : Result Started → Option Text
id_of (ok s) = elim s.container [ none ↦ none | some c ↦ some c.id ]
id_of _ = none

trial : Result Started × History
unfolding start_custom setup_container_cleanup start_custom_with build_config new_session
    docker_connect start_container start_new_container prepare_container has_local_image pull_unless
    pull_image create_container network_config create_request exposed_ports container_port itoa
    digits port_bindings wanted_host_port binding_addr is_in_docker host_addr find get bring_up
    wait_for_container_network select_done inspect_network bound_named_ports atoi insert
    finish_start setup_log_forwarding read_logs docker_id make_ready wait wait_loop initf nop_init
    nop_healthcheck build_image split default_tag generate_id sidecar_options
    with_disable_auto_cleanup with_host_mounts with_healthcheck with_init
    with_use_local_images_first http_get with_scheme notify default_address address port
    cleaner_image default_tcp default_port tcp lit text_eq env_aware_clone reachable_host parse_id
    equal_fold int_eq has_prefix
trial = start_custom two 9 (lit "redis") web [] []

-- The identifier of the started container names its sidecar.
with_sidecar : id_of trial.0 ≡ some (lit "0123456789-fedcba9876")
unfolding trial lit text_eq has_prefix new_container
with_sidecar = refl

-- A preset that takes a container that runs already.
abbrev shared : Preset (Unit {0})
shared = record {
  options = λ u. (with_container_reuse ∷ with_container_name (lit "c") ∷ [], u);
  image = λ u. lit "redis";
  ports = λ u. web;
}

abbrev started_of : Result Started → Started
started_of (ok s) = s
started_of _ = record { container = none; failure = none }

abbrev shared_run : Result Started × History
shared_run = start calm 9 shared tt [] []

start-Ready_example :
    Ready calm 9
      (build_config (with_container_reuse ∷ with_container_name (lit "c") ∷ []))
      (started_of shared_run.0)
      shared_run.1
unfolding start start_custom start_custom_with build_config new_session new_container docker_connect
    start_container find_reusable_container itoa digits is_in_docker host_addr find get
    wait_for_container_network select_done inspect_network bound_named_ports atoi insert
    finish_start setup_log_forwarding read_logs docker_id make_ready wait wait_loop initf nop_init
    nop_healthcheck build_image split default_tag tcp lit text_eq env_aware_clone reachable_host
    parse_id equal_fold int_eq has_prefix with_container_reuse with_container_name
start-Ready_example =
    start-Ready calm 9 shared tt [] [] shared_run.1 (started_of shared_run.0) refl refl
