-- ===== src/Docker/Start.antt =====
-- docker.go: startContainer and findReusableContainer. The goroutine of setupContainerCleanup, which
-- starts the sidecar and sends its identifier, is a parameter.
pub mod Reuse
use gnomock.Base.{
  ℕ, Text, lit, is_empty, Bool, Option, none, some, List, [], ◌∷◌, ◌++◌, if◌then◌else◌,
}
use gnomock.Ports.{NamedPorts}
use gnomock.Container.{Container, generate_id}
use gnomock.Options.{Options}
use gnomock.Errors.{plain}
use gnomock.Engine.{World, Context, container_start, container_list}
use gnomock.Engine.Actions.{
  M, ask, look, try, Tried, value, failed, pure, fail, ignore, wrapping, ◌>>=◌, ◌>>◌,
}
use gnomock.Docker.Network.{wait_for_container_network}
use gnomock.Docker.Create.{prepare_container}

-- What the sidecar's goroutine does for a container; `some` is the value that it sends.
abbrev pub Cleanup : Type 0
Cleanup = Text → Options → M (Option Text)

module _ (w : World) (fuel : ℕ) where
  first_running : Context → NamedPorts → List Text → M (Option Container)
  first_running ctx ports [] = pure none
  first_running ctx ports (id ∷ ids) = do
    c ← wait_for_container_network w fuel ctx id ports
    pure (some c)

  unfoldable pub find_reusable_container :
      Context → Text → NamedPorts → Options → M (Option Container)
  unfolding first_running
  find_reusable_container ctx image ports cfg =
      if is_empty cfg.container_name
      then fail (plain (lit "container name is required when container reuse is enabled"))
      else do
        running ← ask (container_list cfg.container_name image) (w.lists cfg.container_name image)
        first_running ctx ports running

  -- ContainerStart and the wait for the network.
  unfoldable pub bring_up : Context → Text → NamedPorts → M Container
  bring_up ctx id ports = do
    wrapping (lit "can't start container " ++ id) (ask (container_start id) (w.starts id))
    wrapping (lit "container network isn't ready") (wait_for_container_network w fuel ctx id ports)

  abbrev with_sidecar : Container → Option Text → Container
  with_sidecar c none = c
  with_sidecar c (some sidecar) = record c { id = generate_id c.id sidecar }

  -- The goroutine runs at once, or when its value is received, or, on an error, later by itself.
  unfoldable pub start_new_container : Cleanup → Context → Text → NamedPorts → Options → M Container
  start_new_container cleanup ctx image ports cfg = do
    id ← wrapping (lit "can't prepare container") (prepare_container w image ports cfg)
    at_once ← look w.eager
    early ← if at_once then cleanup id cfg else pure none
    up ← try (bring_up ctx id ports)
    elim up [
      | value c ↦ do
        sidecar ← if at_once then pure early else cleanup id cfg
        pure (with_sidecar c sidecar)
      | failed e ↦ do if at_once then pure tt else ignore (cleanup id cfg); fail e
    ]

  abbrev or_new : Option Container → M Container → M Container
  or_new (some c) new = pure c
  or_new none new = new

  unfoldable pub start_container : Cleanup → Context → Text → NamedPorts → Options → M Container
  start_container cleanup ctx image ports cfg = do
    reusable ← if cfg.reuse then find_reusable_container ctx image ports cfg else pure none
    or_new reusable (start_new_container cleanup ctx image ports cfg)
