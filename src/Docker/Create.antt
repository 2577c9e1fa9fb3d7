-- ===== src/Docker/Create.antt =====
-- docker.go: createContainer and prepareContainer.
pub mod Retry
pub mod Pulls
use gnomock.Base.{Text, lit, Bool, true, false, Option, none, some, List, [], ◌∷◌, if◌then◌else◌}
use gnomock.Ports.{NamedPorts}
use gnomock.Options.{Options}
use gnomock.Errors.{GoError, error}
use gnomock.Engine.{World, CreateRequest, container_create, container_remove, network_list}
use gnomock.Engine.Actions.{
  M, ask, try, Tried, value, failed, pure, fail, crash, wrapping, ◌>>=◌, ◌>>◌,
}
use gnomock.Docker.Conflict.{duplicate_of}
use gnomock.Docker.Images.{is_existing_local_image, pull_image}
use gnomock.Docker.Network.{exposed_ports, port_bindings}

module _ (w : World) where
  -- nr[0]
  first_network : List (Text × Text) → M (Option (Text × Text))
  first_network [] = crash
  first_network (network ∷ networks) = pure (some network)

  -- Only the first name of Networks is looked up.
  unfoldable pub network_config : List Text → M (Option (Text × Text))
  unfolding first_network
  network_config [] = pure none
  network_config (name ∷ names) = do
    found ← wrapping (lit "can't get network list") (ask (network_list name) (w.networks name))
    first_network found

  unfoldable pub create_request : Text → NamedPorts → Options → Option (Text × Text) → CreateRequest
  create_request image ports cfg network =
      let exposed = exposed_ports ports in
      record {
        image = image;
        exposed_ports = exposed;
        env = cfg.env;
        cmd = cfg.cmd;
        entrypoint = cfg.entrypoint;
        port_bindings = port_bindings w exposed ports;
        auto_remove = true;
        privileged = cfg.privileged;
        mounts = cfg.host_mounts;
        extra_hosts = cfg.extra_hosts;
        network = network;
        name = cfg.container_name;
      }

  -- What follows a failed ContainerCreate: a duplicate is removed and the creation is repeated,
  -- with `nil` for the network.
  unfoldable pub replace_duplicate : CreateRequest → GoError → Option Text → M Text
  replace_duplicate request e none = fail e
  replace_duplicate request e (some duplicate) = do
    wrapping (lit "can't remove existing container")
        (ask (container_remove duplicate) (w.removes duplicate))
    let again = record request { network = none }
    ask (container_create again) (w.creates again)

  unfoldable pub create_container : Text → NamedPorts → Options → M Text
  create_container image ports cfg = do
    network ← network_config cfg.networks
    let request = create_request image ports cfg network
    created ← try (ask (container_create request) (w.creates request))
    elim created [
      | value id ↦ pure id
      | failed e ↦ replace_duplicate request e (duplicate_of (error e))
    ]

  -- Whether the image need not be pulled.
  unfoldable pub has_local_image : Text → Options → M Bool
  has_local_image image cfg =
      if cfg.use_local_images_first
      then wrapping (lit "can't list image") (is_existing_local_image w image)
      else pure false

  unfoldable pub pull_unless : Bool → Text → Options → M (Unit {0})
  pull_unless true image cfg = pure tt
  pull_unless false image cfg = wrapping (lit "can't pull image") (pull_image w image cfg.auth)

  unfoldable pub prepare_container : Text → NamedPorts → Options → M Text
  prepare_container image ports cfg = do
    existing ← has_local_image image cfg
    pull_unless existing image cfg
    wrapping (lit "can't create container") (create_container image ports cfg)
