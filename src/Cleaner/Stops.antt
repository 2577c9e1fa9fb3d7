-- ===== src/Cleaner/Stops.antt =====
-- That the cleaner stops the containers it is asked to stop.
use mathlib.Core.List.{append_assoc}
use gnomock.Base.{[], ◌∷◌, ℕ, inl, ◌≡◌, Text, sym, refl, lit, arith, ◌++◌, ap}
use gnomock.Engine.Actions.{ok}
use gnomock.Engine.{http_notify, History}
use gnomock.Cleaner.{
  Handler, idle, entering, hanging, released, call_stop, stopping, Watcher, waiting, satisfied,
  running, exited, stop_called, stop_succeeded, canceled, System, Step, connect, enter, cancel,
  stop_ok, Steps, here, next, Happened, update, container_of, sync_path, moved,
}
use mathlib.Core.Path.{subst}
use gnomock.Internal.{notify}
use gnomock.Base.FilePaths.{trim_prefix-append}

after : {s t u : System} → Step s t → Steps t u → Steps s u
after st here = next here st
after st (next r last) = next (after st r) last

update-same : (f : ℕ → Handler) (i : ℕ) (v : Handler) → update f i v i ≡ v
update-same f i v = ground arith

-- There are steps that stop the container for the request and end the process with status 0.
abbrev pub CanStop : System → ℕ → Text → Type 0
CanStop s i id =
    (t : System) × Steps s t × (t.process ≡ exited 0) × Happened (stop_succeeded i id) t.log

CanStop-after : {s t : System} {i : ℕ} {id : Text} → Step s t → CanStop t i id → CanStop s i id
CanStop-after st (u, steps, out, did) = (u, after st steps, out, did)

stopping-CanStop :
    (s : System) (i : ℕ) (id : Text)
    → s.process ≡ running
    → s.handlers i ≡ stopping id
    → CanStop s i id
stopping-CanStop s i id run at = (_, next here (stop_ok s i id run at), refl, inl refl)

released-CanStop :
    (s : System) (i : ℕ) (id : Text)
    → s.process ≡ running
    → s.handlers i ≡ released id
    → CanStop s i id
released-CanStop s i id run at = CanStop-after (call_stop s i id run at) (
    stopping-CanStop (moved s i (stopping id) (stop_called i id ∷ [])) i id run
      (update-same s.handlers i (stopping id)))

hanging-CanStop :
    (s : System) (i : ℕ) (id : Text)
    → s.process ≡ running
    → s.handlers i ≡ hanging id
    → CanStop s i id
hanging-CanStop s i id run at = CanStop-after (cancel s i id run at) (
    released-CanStop (moved s i (released id) (canceled i ∷ [])) i id run
      (update-same s.handlers i (released id)))

entering-CanStop :
    (s : System) (i : ℕ) (path : Text) (watcher : Watcher)
    → s.watcher ≡ watcher
    → s.process ≡ running
    → s.handlers i ≡ entering path
    → CanStop s i (container_of path)
entering-CanStop s i path waiting w run at = CanStop-after (connect s i path run at w) (
    hanging-CanStop (record (moved s i (hanging (container_of path)) []) { watcher = satisfied }) i
      (container_of path) run (update-same s.handlers i (hanging (container_of path))))
entering-CanStop s i path satisfied w run at = CanStop-after (enter s i path run at w) (
    hanging-CanStop (moved s i (hanging (container_of path)) []) i (container_of path) run
      (update-same s.handlers i (hanging (container_of path))))

-- The handler serves a request, whatever it waits for, for the container.
abbrev pub Serves : Handler → Text → Type 0
Serves idle id = ⊥
Serves (entering path) id = container_of path ≡ id
Serves (hanging other) id = other ≡ id
Serves (released other) id = other ≡ id
Serves (stopping other) id = other ≡ id

serving-CanStop :
    (s : System) (i : ℕ) (id : Text) (v : Handler)
    → s.process ≡ running
    → s.handlers i ≡ v
    → Serves v id
    → CanStop s i id
serving-CanStop s i id idle run at serves = absurd serves
serving-CanStop s i id (entering path) run at serves =
    subst (CanStop s i) serves (entering-CanStop s i path s.watcher refl run at)
serving-CanStop s i id (hanging other) run at serves =
    subst (CanStop s i) serves (hanging-CanStop s i other run at)
serving-CanStop s i id (released other) run at serves =
    subst (CanStop s i) serves (released-CanStop s i other run at)
serving-CanStop s i id (stopping other) run at serves =
    subst (CanStop s i) serves (stopping-CanStop s i other run at)

-- While the process runs and a request has come in, however far its handler is, nothing has blocked
-- it for good: there are steps that end its context, stop its container and end the process with
-- status 0.
pub requested-CanStop :
    (s : System) (i : ℕ) (id : Text)
    → s.process ≡ running
    → Serves (s.handlers i) id
    → CanStop s i id
requested-CanStop s i id run serves = serving-CanStop s i id (s.handlers i) run refl serves

-- The path that cleaner.Notify requests gives the container back.
pub notify-container_of :
    (addr id : Text) (h : History)
    → (path : Text) × (notify addr id h
        ≡ (ok tt, http_notify ((lit "http://" ++ addr) ++ path) ∷ h))
      × (container_of path ≡ id)
unfolding notify container_of
notify-container_of addr id h = (
  sync_path ++ id,
  ap (λ url. (ok tt, http_notify url ∷ h))
      (sym (append_assoc (lit "http://") addr (sync_path ++ id))),
  trim_prefix-append sync_path id,
)
