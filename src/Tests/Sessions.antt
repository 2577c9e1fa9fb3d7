-- ===== src/Tests/Sessions.antt =====
-- Starting, waiting and stopping.
use gnomock.Base.{
  lit, ◌≡◌, refl, true, none, some, [], ◌∷◌, negsuc, ◌≢◌, ◌++◌, arith, if◌then◌else◌, pos, text_eq,
  ◌⊎◌,
}
use gnomock.Tests.Worlds.{calm, no_logs, web, box}
use gnomock.Options.{Options, initial, build_config, with_env, with_options}
use gnomock.Options.Merge.{build_config-with_options, SameBesides, first_given}
use gnomock.Session.Create.{
  make_ready, finish_start, start_custom, start_custom_with, setup_container_cleanup, Started,
  undo_start,
}
use gnomock.Session.Create.Failure.{make_ready_results, finish_start_leaks, Undone}
use gnomock.Session.Wait.{wait_loop, canceled_after, wait, initf}
use gnomock.Session.Wait.Health.{wait_loop-ends}
use gnomock.Session.Sidecar.{start_custom-deep}
use gnomock.Session.Stop.{
  stop_each, stop_all, stop, stop_parts, stop_sidecar, new_session, run_on_stop, first_error,
}
use gnomock.Session.Stop.Calls.{stop_each-attempts}
use gnomock.Engine.Trace.{Made}
use gnomock.Engine.Actions.{err, ok, stuck}
use gnomock.Engine.{background, World, refuse, container_stop, container_logs, History}
use gnomock.Docker.Client.{select_done, stop_container, docker_connect, is_in_docker}
use gnomock.Errors.{wrap, plain, GoError}
use gnomock.Container.{docker_id, parse_id}
use gnomock.Base.Int.{ltb_ℤ}

-- A service that never becomes healthy.
abbrev sick : Options
sick = record initial { healthcheck = λ c h. (err (plain []), h) }

finish_start_leaks_example : finish_start no_logs 5 background initial box [] ≡ (
  ok (record {
    container = none;
    failure = some (
        wrap
          (lit "can't setup log forwarding")
          (wrap (lit "can't create log reader") (wrap (lit "can't read logs") (plain []))));
  }),
  container_logs (docker_id box) ∷ [],
)
finish_start_leaks_example = finish_start_leaks no_logs 5 background initial box [] (plain []) refl

abbrev gave_up : Started
gave_up = record {
  container = none;
  failure =
      some (wrap (lit "can't connect to container") (wrap (lit "canceled after error") (plain [])));
}

abbrev given_up : History
given_up = (make_ready calm 9 background sick box []).1

make_ready_results_example :
    ((gave_up.failure ≡ none)
      × (gave_up.container ≡ some box)
      × (k : History) × (wait calm 9 background box sick [] ≡ (ok tt, k))
      × (initf calm box sick k ≡ (ok tt, given_up)))
    ⊎ ((k : History) × (x : GoError) × (((wait calm 9 background box sick [] ≡ (err x, k))
            × (gave_up.failure ≡ some (wrap (lit "can't connect to container") x)))
          ⊎ ((j : History) × (wait calm 9 background box sick [] ≡ (ok tt, j))
              × (initf calm box sick j ≡ (err x, k))
              × (gave_up.failure ≡ some (wrap (lit "can't init container") x))))
        × Undone calm 9 sick box k gave_up.container given_up)
unfolding make_ready wait wait_loop select_done undo_start stop_all stop_each stop stop_parts
    stop_sidecar stop_container docker_connect new_session is_in_docker run_on_stop canceled_after
    lit first_error parse_id text_eq
make_ready_results_example = make_ready_results calm 9 background sick box [] given_up gave_up refl

wait_loop-ends_example : (wait_loop calm 4 background box sick none []).0 ≢ stuck
wait_loop-ends_example =
    wait_loop-ends calm background box sick 3 (λ h le. ground arith) (λ g. omega arith) (λ g e. cc)
      3 none [] (omega arith)

start_custom-deep_example :
    start_custom_with calm 5 (setup_container_cleanup calm 5 9) (lit "redis") web []
    ≡ start_custom calm 5 (lit "redis") web []
start_custom-deep_example = start_custom-deep calm 5 7 (lit "redis") web []

-- Docker stops nothing, and still is asked to stop the second container.
abbrev stuck_daemon : World
stuck_daemon = record calm { stops = λ id h. refuse (plain []) }

stop_each-attempts_example :
    Made
      (container_stop (docker_id box))
      (stop_each stuck_daemon ((none ∷ some box ∷ []) ++ some box ∷ []) []).1
stop_each-attempts_example =
    stop_each-attempts stuck_daemon (λ h. refl) box (none ∷ some box ∷ []) [] []

abbrev asked : Options
asked = record initial { privileged = true; debug = true; timeout = negsuc 4 }

build_config-with_options_example :
    let before = build_config (with_env (lit "A=1") ∷ []) in
    let after = build_config ((with_env (lit "A=1") ∷ []) ++ with_options asked ∷ []) in
    (after.timeout ≡ (if ltb_ℤ (pos 0) asked.timeout then asked.timeout else before.timeout))
    × (after.env ≡ before.env ++ asked.env)
    × (after.debug ≡ asked.debug)
    × (after.container_name ≡ asked.container_name)
    × (after.custom_named_ports ≡ first_given asked.custom_named_ports before.custom_named_ports)
    × SameBesides after before
build_config-with_options_example = build_config-with_options (with_env (lit "A=1") ∷ []) asked
