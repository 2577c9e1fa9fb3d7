-- ===== src/Cleaner/Requests.antt =====
-- Which requests the cleaner stops containers for.
use gnomock.Base.{
  ◌∷◌, ℕ, List, inr, Bool-cases, ◌==◌, inl, ◌≡◌, Text, sym, refl, lit, arith, ◌++◌, has_prefix,
  true,
}
use gnomock.Cleaner.{
  listen_failed, listen_error, Handler, idle, entering, hanging, released, call_stop, stopping,
  Event, requested, stop_called, stop_succeeded, stop_failed, canceled, timed_out, System, Step,
  arrive, connect, enter, time_out, cancel, stop_ok, stop_error, here, next, initial, Reached,
  Happened, update, container_of, sync_path,
}
use mathlib.Core.Path.{subst}
use gnomock.Base.FilePaths.{trim_prefix_lem}

-- What must have happened before a handler is where it is.
abbrev Known : List Event → ℕ → Handler → Type 0
Known log i idle = Unit
Known log i (entering path) = Happened (requested i path) log × (has_prefix path sync_path ≡ true)
Known log i (hanging id) = Happened (requested i (sync_path ++ id)) log
Known log i (released id) = Happened (requested i (sync_path ++ id)) log × Happened (canceled i) log
Known log i (stopping id) = Happened (requested i (sync_path ++ id)) log × Happened (canceled i) log

-- What must have happened before an event.
abbrev Asked : List Event → Event → Type 0
Asked log (stop_called i id) =
    Happened (requested i (sync_path ++ id)) log × Happened (canceled i) log
Asked log (stop_succeeded i id) =
    Happened (requested i (sync_path ++ id)) log × Happened (canceled i) log
Asked log (stop_failed i id) =
    Happened (requested i (sync_path ++ id)) log × Happened (canceled i) log
Asked log _ = Unit

record IsAsked (s : System) : Type 0 where
  known : (i : ℕ) → Known s.log i (s.handlers i)
  asked : (e : Event) → Happened e s.log → Asked s.log e

Known-more :
    (f : Event) (log : List Event) (i : ℕ) (v : Handler) → Known log i v → Known (f ∷ log) i v
Known-more f log i idle k = tt
Known-more f log i (entering path) (k, p) = (inr k, p)
Known-more f log i (hanging id) k = inr k
Known-more f log i (released id) (k, l) = (inr k, inr l)
Known-more f log i (stopping id) (k, l) = (inr k, inr l)

Asked-more : (f : Event) (log : List Event) (e : Event) → Asked log e → Asked (f ∷ log) e
Asked-more f log (stop_called i id) (k, l) = (inr k, inr l)
Asked-more f log (stop_succeeded i id) (k, l) = (inr k, inr l)
Asked-more f log (stop_failed i id) (k, l) = (inr k, inr l)
Asked-more f log _ k = tt

Known-update :
    (log : List Event) (handlers : ℕ → Handler) (i : ℕ) (v : Handler)
    → ((j : ℕ) → Known log j (handlers j))
    → Known log i v
    → (j : ℕ) → Known log j (update handlers i v j)
Known-update log handlers i v k kv j = elim (Bool-cases (j == i)) [
  | inl p ↦
      let same : j ≡ i = ground arith in
      let at : update handlers i v j ≡ v = ground arith in
      subst (Known log j) (sym at) (subst (λ n. Known log n v) (sym same) kv)
  | inr p ↦
      let at : update handlers i v j ≡ handlers j = ground arith in
      subst (Known log j) (sym at) (k j)
]

Asked-cons :
    (f : Event) (log : List Event)
    → Asked (f ∷ log) f
    → ((e : Event) → Happened e log → Asked log e)
    → (e : Event) → Happened e (f ∷ log)
    → Asked (f ∷ log) e
Asked-cons f log a k e (inl p) = subst (Asked (f ∷ log)) (sym p) a
Asked-cons f log a k e (inr h) = Asked-more f log e (k e h)

hanging-Known :
    (log : List Event) (i : ℕ) (path : Text)
    → Known log i (entering path)
    → Known log i (hanging (container_of path))
unfolding container_of
hanging-Known log i path (r, p) =
    subst (λ x. Happened (requested i x) log) (trim_prefix_lem path sync_path p) r

Step-IsAsked : {s t : System} → Step s t → IsAsked s → IsAsked t
Step-IsAsked (arrive s i path a b p) inv =
    let f = requested i path in
    record {
      known =
          Known-update (f ∷ s.log) s.handlers i (entering path)
            (λ j. Known-more f s.log j (s.handlers j) (inv.known j)) (inl refl, p);
      asked = Asked-cons f s.log tt inv.asked;
    }
Step-IsAsked (connect s i path a b c) inv = record {
  known =
      Known-update s.log s.handlers i (hanging (container_of path)) inv.known
        (hanging-Known s.log i path (subst (Known s.log i) b (inv.known i)));
  asked = inv.asked;
}
Step-IsAsked (enter s i path a b c) inv = record {
  known =
      Known-update s.log s.handlers i (hanging (container_of path)) inv.known
        (hanging-Known s.log i path (subst (Known s.log i) b (inv.known i)));
  asked = inv.asked;
}
Step-IsAsked (time_out s a b) inv = record {
  known = λ j. Known-more timed_out s.log j (s.handlers j) (inv.known j);
  asked = Asked-cons timed_out s.log tt inv.asked;
}
Step-IsAsked (listen_error s a) inv = record {
  known = λ j. Known-more listen_failed s.log j (s.handlers j) (inv.known j);
  asked = Asked-cons listen_failed s.log tt inv.asked;
}
Step-IsAsked (cancel s i id a b) inv =
    let was : Happened (requested i (sync_path ++ id)) s.log =
      subst (Known s.log i) b (inv.known i) in
    let f = canceled i in
    record {
      known =
          Known-update (f ∷ s.log) s.handlers i (released id)
            (λ j. Known-more f s.log j (s.handlers j) (inv.known j)) (inr was, inl refl);
      asked = Asked-cons f s.log tt inv.asked;
    }
Step-IsAsked (call_stop s i id a b) inv =
    let (r, c) = subst (Known s.log i) b (inv.known i) in
    let f = stop_called i id in
    record {
      known =
          Known-update (f ∷ s.log) s.handlers i (stopping id)
            (λ j. Known-more f s.log j (s.handlers j) (inv.known j)) (inr r, inr c);
      asked = Asked-cons f s.log (inr r, inr c) inv.asked;
    }
Step-IsAsked (stop_ok s i id a b) inv =
    let (r, c) = subst (Known s.log i) b (inv.known i) in
    let f = stop_succeeded i id in
    record {
      known = λ j. Known-more f s.log j (s.handlers j) (inv.known j);
      asked = Asked-cons f s.log (inr r, inr c) inv.asked;
    }
Step-IsAsked (stop_error s i id a b) inv =
    let (r, c) = subst (Known s.log i) b (inv.known i) in
    let f = stop_failed i id in
    record {
      known = λ j. Known-more f s.log j (s.handlers j) (inv.known j);
      asked = Asked-cons f s.log (inr r, inr c) inv.asked;
    }

Reached-IsAsked : {s : System} → Reached s → IsAsked s
unfolding initial
Reached-IsAsked here = record { known = λ i. tt; asked = λ e h. absurd h }
Reached-IsAsked (next r st) = Step-IsAsked st (Reached-IsAsked r)

-- The cleaner calls Stop for a container only for a request to `/sync/` and the identifier of the
-- container, and only when the context of this request is done.
pub stop_called-requested :
    (s : System) (i : ℕ) (id : Text)
    → Reached s
    → Happened (stop_called i id) s.log
    → Happened (requested i (lit "/sync/" ++ id)) s.log × Happened (canceled i) s.log
stop_called-requested s i id r h = IsAsked.asked (Reached-IsAsked r) (stop_called i id) h
