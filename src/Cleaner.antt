-- ===== src/Cleaner.antt =====
-- cmd/cleaner/main.go: the process of a sidecar, as a step relation.
pub mod Requests
pub mod Stops
pub mod Halts
use gnomock.Base.FilePaths.{trim_prefix}
use gnomock.Base.{
  ℕ, [], Text, List, ◌≡◌, ◌∷◌, ◌++◌, lit, if◌then◌else◌, ◌⊎◌, ◌==◌, has_prefix, true,
}

-- A goroutine that serves a request to /sync/, numbered by its request.
pub data Handler : Type 0 where
  idle : Handler
  -- in once.Do, for a path
  entering : Text → Handler
  -- waits for the end of the request's context, then calls gnomock.Stop, then waits for it, for the
  -- container with an identifier
  hanging released stopping : Text → Handler

-- The goroutine that waits for input.
pub data Watcher : Type 0 where
  waiting satisfied : Watcher

pub data Process : Type 0 where
  running : Process
  exited : ℕ → Process

-- What happened to a request, which has a number: it asks for a path, and a container with an
-- identifier is stopped for it.
pub data Event : Type 0 where
  requested stop_called stop_succeeded stop_failed : ℕ → Text → Event
  canceled : ℕ → Event
  timed_out listen_failed : Event

pub record System : Type 0 where
  pub watcher : Watcher
  pub handlers : ℕ → Handler
  pub process : Process
  -- the last event first
  pub log : List Event

unfoldable pub initial : System
initial = record { watcher = waiting; handlers = λ i. idle; process = running; log = [] }

abbrev pub sync_path : Text
sync_path = lit "/sync/"

-- The container of the path of a request.
unfoldable pub container_of : Text → Text
unfolding trim_prefix
container_of path = trim_prefix path sync_path

abbrev pub update : (ℕ → Handler) → ℕ → Handler → ℕ → Handler
update f i v j = if j == i then v else f j

-- The handler moves on, and something happened.
abbrev pub moved : System → ℕ → Handler → List Event → System
moved s i v events = record s { handlers = update s.handlers i v; log = events ++ s.log }

pub data Step : System → System → Type 0 where
  -- net/http calls the handler for the paths that begin with the pattern
  arrive :
      (s : System) (i : ℕ) (path : Text)
      → s.process ≡ running
      → s.handlers i ≡ idle
      → has_prefix path sync_path ≡ true
      → Step s (moved s i (entering path) (requested i path ∷ []))
  -- the first request: `connected <- true` meets the goroutine that waits
  connect :
      (s : System) (i : ℕ) (path : Text)
      → s.process ≡ running
      → s.handlers i ≡ entering path
      → s.watcher ≡ waiting
      → Step s (record (moved s i (hanging (container_of path)) []) { watcher = satisfied })
  -- a later request: once.Do does nothing
  enter :
      (s : System) (i : ℕ) (path : Text)
      → s.process ≡ running
      → s.handlers i ≡ entering path
      → s.watcher ≡ satisfied
      → Step s (moved s i (hanging (container_of path)) [])
  -- ten seconds without input: log.Fatalln
  time_out :
      (s : System)
      → s.process ≡ running
      → s.watcher ≡ waiting
      → Step s (record s { process = exited 1; log = timed_out ∷ s.log })
  -- the context of the request is done
  cancel :
      (s : System) (i : ℕ) (id : Text)
      → s.process ≡ running
      → s.handlers i ≡ hanging id
      → Step s (moved s i (released id) (canceled i ∷ []))
  -- gnomock.Stop is called
  call_stop :
      (s : System) (i : ℕ) (id : Text)
      → s.process ≡ running
      → s.handlers i ≡ released id
      → Step s (moved s i (stopping id) (stop_called i id ∷ []))
  -- gnomock.Stop returns: os.Exit(0), or log.Fatalf
  stop_ok :
      (s : System) (i : ℕ) (id : Text)
      → s.process ≡ running
      → s.handlers i ≡ stopping id
      → Step s (record s { process = exited 0; log = stop_succeeded i id ∷ s.log })
  stop_error :
      (s : System) (i : ℕ) (id : Text)
      → s.process ≡ running
      → s.handlers i ≡ stopping id
      → Step s (record s { process = exited 1; log = stop_failed i id ∷ s.log })
  -- http.ListenAndServe returns: log.Fatalln
  listen_error :
      (s : System)
      → s.process ≡ running
      → Step s (record s { process = exited 1; log = listen_failed ∷ s.log })

pub data Steps (s : System) : System → Type 0 where
  here : Steps s s
  next : {t u : System} → Steps s t → Step t u → Steps s u

-- The states of the process.
abbrev pub Reached : System → Type 0
Reached s = Steps initial s

-- The event is in the log.
abbrev pub Happened : Event → List Event → Type 0
Happened e [] = ⊥
Happened e (f ∷ log) = (e ≡ f) ⊎ Happened e log
