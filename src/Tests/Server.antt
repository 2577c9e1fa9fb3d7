-- ===== src/Tests/Server.antt =====
-- The registry, the handlers and parallel starts.
use gnomock.Base.{
  Text, lit, ◌≡◌, refl, none, some, [], ◌∷◌, List, text_eq, ◌⊎◌, ℕ, ◌<◌, suc, zero, get_elem?, ◌≢◌,
  arith, inl, inr,
}
use gnomock.Tests.Worlds.{calm, web, box}
use gnomock.Registry
use gnomock.Registry.{Registry, AnyPreset, register, find-register}
use gnomock.Gnomockd.{
  Codec, Response, handle_start, handle_stop, empty, error_body, stop_decoded, respond_with_error,
  known_by,
}
use gnomock.Gnomockd.Responses.{
  handle_start_responses, handle_stop_responses, Answered, request_options,
}
use gnomock.Parallel.{Group, go, run_each, finish, set}
use gnomock.Parallel.Results.{Has, Ran, Returned, Schedule, failure_of, go-Ran}
use gnomock.Session.Create.{Started, start}
use gnomock.Errors.{plain, invalid_start, error_code, GoError}
use gnomock.Engine.Actions.{failed, value, pure, ok, err}
use gnomock.Engine.{History, container_stop, connect}
use gnomock.Base.Assoc.{lookup}
use gnomock.Session.Stop.{
  stop_all, stop_each, stop, stop_parts, stop_sidecar, new_session, run_on_stop, first_error,
}
use gnomock.Options.{Options}
use gnomock.Docker.Client.{stop_container, docker_connect, is_in_docker}
use gnomock.Container.{parse_id}
use gnomock.Engine.Trace.{Made}

abbrev plain_preset : AnyPreset
plain_preset = record {
  State = Unit {0};
  preset = record { options = λ s. ([], s); image = λ s. lit "web"; ports = λ s. web };
  state = tt;
}

abbrev registry : Registry
registry = (lit "web", plain_preset) ∷ []

-- Bodies are not looked at.
abbrev codec : Codec
codec = record {
  decode_start = λ body p. failed (plain []);
  decode_stop = λ body. value body;
  encode = λ c. value tt;
  writes_body = λ h. value tt;
  log_lines = λ h. [];
}

abbrev quiet : History
quiet = []

abbrev bad_body : Response
bad_body = record { status = 400; body = error_body (invalid_start (plain [])) }

handle_start_responses_example :
    ((Registry.find registry (lit "web") ≡ none) × (bad_body.status ≡ 404) × (quiet ≡ quiet))
    ⊎ ((p : AnyPreset) × (Registry.find registry (lit "web") ≡ some p)
        × (((e : GoError) × (codec.decode_start [] p ≡ failed e)
              × (bad_body.status ≡ 400)
              × (quiet ≡ quiet))
            ⊎ ((o : Options) × (state : p.State) × (s : Started) × (codec.decode_start [] p
                  ≡ value (o, state))
                × (start calm 5 p.preset state (request_options calm 5 codec 1 o) []
                    ≡ (ok s, quiet))
                × Answered calm 5 codec quiet s bad_body)))
unfolding handle_start Registry.find lookup lit text_eq respond_with_error error_code
handle_start_responses_example =
    handle_start_responses calm 5 codec registry 1 (lit "web") [] [] [] bad_body refl

abbrev stopped : Response
stopped = record { status = 200; body = empty }

abbrev after_stop : History
after_stop = container_stop (lit "01") ∷ connect ∷ []

handle_stop_responses_example :
    (((e : GoError) × (codec.decode_stop (lit "01") ≡ failed e)
        × (stopped.status ≡ 400)
        × (after_stop ≡ []))
      ⊎ ((codec.decode_stop (lit "01") ≡ value []) × (stopped.status ≡ 400) × (after_stop ≡ [])))
    ⊎ ((id : Text) × (codec.decode_stop (lit "01") ≡ value id)
        × (id ≢ [])
        × (((stop_all calm (some (known_by calm 5 codec id) ∷ []) [] ≡ (ok tt, after_stop))
              × (stopped.status ≡ 200)
              × Made (container_stop (parse_id id).0) after_stop)
            ⊎ ((x : GoError) × (stop_all calm (some (known_by calm 5 codec id) ∷ []) []
                  ≡ (err x, after_stop))
                × (stopped.status ≡ 500))))
unfolding handle_stop stop_decoded stop_all stop_each stop stop_parts stop_sidecar stop_container
    docker_connect new_session is_in_docker run_on_stop lit first_error parse_id text_eq
handle_stop_responses_example =
    handle_stop_responses calm 5 codec (lit "01") [] after_stop stopped refl

abbrev up : Started
up = record { container = some box; failure = none }

abbrev down : Started
down = record { container = none; failure = some (plain []) }

-- The second start comes first, and both fail; the error is that of the second.
abbrev down_first : Started
down_first = record { container = some box; failure = some (plain (lit "x")) }

abbrev both : Group
both = record { containers = none ∷ some box ∷ []; failure = some (plain (lit "x")) }

visited : (i : ℕ) → i < 2 → Has i (1 ∷ 0 ∷ [])
visited zero lt = inr (inl refl)
visited (suc zero) lt = inl refl
visited (suc (suc i)) lt = absurd (omega arith)

backwards : Schedule 2 (1 ∷ 0 ∷ [])
backwards =
    ((omega arith, (omega arith, tt)), ((λ there. ground arith), ((λ there. there), tt)), visited)

go-Ran_example :
    (results : List (ℕ × Started)) × Ran
      (pure down ∷ pure down_first ∷ [])
      (1 ∷ 0 ∷ [])
      []
      results
      []
    × ((i : ℕ)
        → i < 2
        → (s : Started) × Returned i s results × (get_elem? both.containers i ≡ some s.container))
    × (both.failure ≡ failure_of results)
unfolding go run_each finish set
go-Ran_example = go-Ran (pure down ∷ pure down_first ∷ []) (1 ∷ 0 ∷ []) [] [] both backwards refl
