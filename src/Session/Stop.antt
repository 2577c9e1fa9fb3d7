-- ===== src/Session/Stop.antt =====
-- gnomock.go: Stop, stop, closeLogReader.
pub mod Calls
use gnomock.Base.{
  Text, lit, is_empty, Bool, true, false, Option, none, some, List, [], ◌∷◌, if◌then◌else◌,
}
use gnomock.Container.{Container, parse_id}
use gnomock.Engine.{World, close_logs, wait_logs}
use gnomock.Engine.Actions.{
  M, ok, answer, ask, look, try, Tried, value, failed, rethrow, pure, fail, ignore, wrapping, ◌>>=◌,
  ◌>>◌,
}
use gnomock.Docker.Client.{docker_connect, stop_container, is_in_docker}

module _ (w : World) where
  -- newG
  unfoldable pub new_session : Bool → M (Unit {0})
  new_session true h = (answer (w.session h), h)
  new_session false h = (ok tt, h)

  -- The closure that closeLogReader returns.
  unfoldable pub run_on_stop : Option Text → M (Unit {0})
  run_on_stop none = pure tt
  run_on_stop (some id) = do
    ask (close_logs id) (w.closes_logs id)
    ask (wait_logs id) (w.copies_logs id)

  -- The goroutine that stops the sidecar; its error is dropped.
  unfoldable pub stop_sidecar : Text → M (Unit {0})
  stop_sidecar sidecar = if is_empty sidecar then pure tt else ignore (stop_container w sidecar)

  unfoldable pub stop_parts : Text → Text → M (Unit {0})
  unfolding stop_sidecar
  stop_parts id sidecar = do
    at_once ← look w.eager
    if at_once then stop_sidecar sidecar else pure tt
    r ← try (wrapping (lit "can't stop container") (stop_container w id))
    if at_once then pure tt else stop_sidecar sidecar
    rethrow r

  -- `g.stop`
  unfoldable pub stop : Option Container → M (Unit {0})
  stop none = pure tt
  stop (some c) = do
    wrapping (lit "can't create docker client") (docker_connect w)
    let (id, sidecar) = parse_id c.id
    stop_parts id sidecar
    wrapping (lit "can't perform last cleanup") (run_on_stop c.on_stop)

  -- The goroutines of the group, in one order. Each runs, whatever the others return, and the group
  -- returns the first error.
  unfoldable pub first_error : Tried (Unit {0}) → Tried (Unit {0}) → M (Unit {0})
  first_error (failed e) later = fail e
  first_error (value u) later = rethrow later

  unfoldable pub stop_each : List (Option Container) → M (Unit {0})
  unfolding first_error
  stop_each [] = pure tt
  stop_each (c ∷ cs) = do r ← try (stop c); later ← try (stop_each cs); first_error r later

  -- Stop
  unfoldable pub stop_all : List (Option Container) → M (Unit {0})
  stop_all cs = do new_session (is_in_docker w); stop_each cs
