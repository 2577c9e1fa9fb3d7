-- ===== src/Session/Stop/Calls.antt =====
-- What Stop asks of docker.
use gnomock.Base.{Text, ◌≡◌, arith, Option, some, ◌∷◌, none, [], List, ◌++◌, ◌≢◌}
use gnomock.Engine.{World, History, container_stop, Call, connect, reply}
use gnomock.Engine.Actions.{ok, panic, stuck}
use gnomock.Engine.Trace.{Made}
use gnomock.Session.Stop.{
  stop_parts, stop_sidecar, stop_all, stop, stop_each, new_session, run_on_stop,
}
use gnomock.Container.{Container, docker_id, parse_id}
use gnomock.Docker.Client.{stop_container, docker_connect}

module _ (w : World) where
  -- Stopping the sidecar never fails.
  stop_sidecar-ok : (sidecar : Text) (h : History) → (stop_sidecar w sidecar h).0 ≡ ok tt
  unfolding stop_sidecar stop_container
  stop_sidecar-ok sidecar h = ground arith

  stop_parts-Made :
      (id sidecar : Text) (h : History)
      → (stop_parts w id sidecar h).0 ≡ ok tt
      → Made (container_stop id) (stop_parts w id sidecar h).1
  unfolding stop_parts stop_sidecar stop_container
  stop_parts-Made id sidecar h e = ground arith

  -- A container that was stopped without an error had its docker container stopped.
  stop-Made :
      (c : Container) (h : History)
      → (stop w (some c) h).0 ≡ ok tt
      → Made (container_stop (docker_id c)) (stop w (some c) h).1
  unfolding stop docker_id docker_connect run_on_stop
  stop-Made c h e =
      ground (arith, stop_parts-Made (parse_id c.id).0 (parse_id c.id).1 (connect ∷ h))

  -- A call made stays in the history.
  stop-keeps :
      (call : Call) (c : Option Container) (h : History) → Made call h → Made call (stop w c h).1
  unfolding stop stop_parts stop_sidecar stop_container docker_connect run_on_stop
  stop-keeps call none h m = m
  stop-keeps call (some c) h m = ground arith

  pub stop_all_single :
      (c : Container) (h : History)
      → (stop_all w (some c ∷ []) h).0 ≡ ok tt
      → Made (container_stop (docker_id c)) (stop_all w (some c ∷ []) h).1
  unfolding stop_all stop_each new_session
  stop_all_single c h e = ground (arith, stop-Made c h)

  -- Stopping one container always returns.
  stop-returns :
      (c : Option Container) (h : History) → ((stop w c h).0 ≢ panic) × ((stop w c h).0 ≢ stuck)
  unfolding stop stop_parts stop_sidecar stop_container docker_connect run_on_stop
  stop-returns none h = ground arith
  stop-returns (some c) h = ground arith

  stop_each-keeps :
      (call : Call) (cs : List (Option Container)) (h : History)
      → Made call h
      → Made call (stop_each w cs h).1
  unfolding stop_each
  stop_each-keeps call [] h m = m
  stop_each-keeps call (c ∷ cs) h m =
      ground (arith, stop-keeps call c h m, stop_each-keeps call cs (stop w c h).1)

  module _ (up : (h : History) → w.connects h ≡ reply tt) where
    stop-attempts :
        (c : Container) (h : History) → Made (container_stop (docker_id c)) (stop w (some c) h).1
    unfolding stop stop_parts stop_sidecar stop_container docker_connect run_on_stop docker_id
    stop-attempts c h = ground (arith, up h)

    -- While docker can be reached, stopping several containers asks docker to stop each of them,
    -- whatever becomes of the others.
    pub stop_each-attempts :
        (c : Container) (before later : List (Option Container)) (h : History)
        → Made (container_stop (docker_id c)) (stop_each w (before ++ some c ∷ later) h).1
    unfolding stop_each
    stop_each-attempts c [] later h = ground (
      arith,
      stop-attempts c h,
      stop_each-keeps (container_stop (docker_id c)) later (stop w (some c) h).1,
    )
    stop_each-attempts c (b ∷ before) later h =
        ground (arith, stop-returns b h, stop_each-attempts c before later (stop w b h).1)
