-- ===== src/Cleaner/Halts.antt =====
-- When the cleaner halts.
use gnomock.Cleaner.{
  listen_failed, listen_error, Handler, hanging, entering, released, call_stop, stopping, idle,
  waiting, Process, running, exited, Event, requested, stop_called, stop_succeeded, stop_failed,
  canceled, timed_out, System, Step, arrive, connect, enter, time_out, cancel, stop_ok, stop_error,
  here, next, initial, Reached, Happened, update, container_of,
}
use gnomock.Base.{◌≡◌, ℕ, Text, List, ◌≢◌, ◌⊎◌, ◌∷◌, Bool-cases, ◌==◌, sym, inl, inr, arith, refl}
use mathlib.Core.Path.{subst}

-- The handler has not passed once.Do.
abbrev pub Early : Handler → Type 0
Early idle = Unit
Early (entering path) = Unit
Early _ = ⊥

-- Why the process has ended: it has stopped a container, or failed to, or nobody was let in in time,
-- and then no request hangs or was canceled and no container was touched, or it could not listen.
abbrev pub Outcome : (ℕ → Handler) → List Event → Process → Type 0
Outcome handlers log running = ¬ (Happened timed_out log)
Outcome handlers log (exited n) =
    ((n ≡ 0)
      × (i : ℕ) × (id : Text) × Happened (stop_succeeded i id) log
      × ¬ (Happened timed_out log))
    ⊎ (((n ≡ 1)
          × (i : ℕ) × (id : Text) × Happened (stop_failed i id) log
          × ¬ (Happened timed_out log))
        ⊎ (((n ≡ 1)
              × Happened timed_out log
              × ((i : ℕ) → Early (handlers i))
              × ((i : ℕ) → ¬ (Happened (canceled i) log))
              × ((i : ℕ) (id : Text) → ¬ (Happened (stop_called i id) log)))
            ⊎ ((n ≡ 1) × Happened listen_failed log)))

record IsHalting (s : System) : Type 0 where
  early : s.watcher ≡ waiting → (i : ℕ) → Early (s.handlers i)
  silent : s.watcher ≡ waiting → (i : ℕ) (id : Text) → ¬ (Happened (stop_called i id) s.log)
  steady : s.watcher ≡ waiting → (i : ℕ) → ¬ (Happened (canceled i) s.log)
  outcome : Outcome s.handlers s.log s.process

Early-update :
    (handlers : ℕ → Handler) (i : ℕ) (v : Handler)
    → ((j : ℕ) → Early (handlers j))
    → Early v
    → (j : ℕ) → Early (update handlers i v j)
Early-update handlers i v k kv j = elim (Bool-cases (j == i)) [
  | inl p ↦ let at : update handlers i v j ≡ v = ground arith in subst Early (sym at) kv
  | inr p ↦ let at : update handlers i v j ≡ handlers j = ground arith in subst Early (sym at) (k j)
]

absent : (e f : Event) (log : List Event) → e ≢ f → ¬ (Happened e log) → ¬ (Happened e (f ∷ log))
absent e f log d n (inl p) = d p
absent e f log d n (inr h) = n h

goes_on :
    (s : System) (f : Event)
    → s.process ≡ running
    → timed_out ≢ f
    → IsHalting s
    → (handlers : ℕ → Handler) → Outcome handlers (f ∷ s.log) s.process
goes_on s f run d inv handlers =
    subst (Outcome handlers (f ∷ s.log)) (sym run)
      (absent timed_out f s.log d (subst (Outcome s.handlers s.log) run inv.outcome))

-- The log may be the same while the handlers move on.
same_log :
    (s : System) (handlers : ℕ → Handler)
    → s.process ≡ running
    → IsHalting s
    → Outcome handlers s.log s.process
same_log s handlers run inv =
    subst (Outcome handlers s.log) (sym run) (subst (Outcome s.handlers s.log) run inv.outcome)

module _ (s : System) (inv : IsHalting s) (run : s.process ≡ running) where
  not_late : ¬ (Happened timed_out s.log)
  not_late = subst (Outcome s.handlers s.log) run inv.outcome

  -- A handler that has passed once.Do shows that the watcher does not wait.
  passed : (i : ℕ) (v : Handler) → s.handlers i ≡ v → ¬ (Early v) → ¬ (s.watcher ≡ waiting)
  passed i v e n w = n (subst Early e (inv.early w i))

Step-IsHalting : {s t : System} → Step s t → IsHalting s → IsHalting t
Step-IsHalting (arrive s i path a b p) inv = record {
  early = λ w. Early-update s.handlers i (entering path) (inv.early w) tt;
  silent = λ w j id.
      absent (stop_called j id) (requested i path) s.log (λ e. ground arith) (inv.silent w j id);
  steady = λ w j. absent (canceled j) (requested i path) s.log (λ e. ground arith) (inv.steady w j);
  outcome =
      goes_on s (requested i path) a (λ e. ground arith) inv (update s.handlers i (entering path));
}
Step-IsHalting (connect s i path a b c) inv = record {
  early = λ w. absurd (ground arith);
  silent = λ w. absurd (ground arith);
  steady = λ w. absurd (ground arith);
  outcome = same_log s (update s.handlers i (hanging (container_of path))) a inv;
}
Step-IsHalting (enter s i path a b c) inv = record {
  early = λ w. absurd (ground arith);
  silent = λ w. absurd (ground arith);
  steady = λ w. absurd (ground arith);
  outcome = same_log s (update s.handlers i (hanging (container_of path))) a inv;
}
Step-IsHalting (time_out s a b) inv = record {
  early = inv.early;
  silent =
      λ w j id. absent (stop_called j id) timed_out s.log (λ e. ground arith) (inv.silent w j id);
  steady = λ w j. absent (canceled j) timed_out s.log (λ e. ground arith) (inv.steady w j);
  outcome = inr (
      inr (
        inl (
          refl,
          inl refl,
          inv.early b,
          λ j. absent (canceled j) timed_out s.log (λ e. ground arith) (inv.steady b j),
          λ j id. absent (stop_called j id) timed_out s.log (λ e. ground arith) (inv.silent b j id),
        )));
}
Step-IsHalting (listen_error s a) inv = record {
  early = inv.early;
  silent = λ w j id.
      absent (stop_called j id) listen_failed s.log (λ e. ground arith) (inv.silent w j id);
  steady = λ w j. absent (canceled j) listen_failed s.log (λ e. ground arith) (inv.steady w j);
  outcome = inr (inr (inr (refl, inl refl)));
}
Step-IsHalting (cancel s i id a b) inv = record {
  early = λ w. absurd (passed s inv a i (hanging id) b (λ x. x) w);
  silent = λ w. absurd (passed s inv a i (hanging id) b (λ x. x) w);
  steady = λ w. absurd (passed s inv a i (hanging id) b (λ x. x) w);
  outcome = goes_on s (canceled i) a (λ e. ground arith) inv (update s.handlers i (released id));
}
Step-IsHalting (call_stop s i id a b) inv = record {
  early = λ w. absurd (passed s inv a i (released id) b (λ x. x) w);
  silent = λ w. absurd (passed s inv a i (released id) b (λ x. x) w);
  steady = λ w. absurd (passed s inv a i (released id) b (λ x. x) w);
  outcome =
      goes_on s (stop_called i id) a (λ e. ground arith) inv (update s.handlers i (stopping id));
}
Step-IsHalting (stop_ok s i id a b) inv = record {
  early = λ w. absurd (passed s inv a i (stopping id) b (λ x. x) w);
  silent = λ w. absurd (passed s inv a i (stopping id) b (λ x. x) w);
  steady = λ w. absurd (passed s inv a i (stopping id) b (λ x. x) w);
  outcome = inl (
    refl,
    i,
    id,
    inl refl,
    absent timed_out (stop_succeeded i id) s.log (λ e. ground arith) (not_late s inv a),
  );
}
Step-IsHalting (stop_error s i id a b) inv = record {
  early = λ w. absurd (passed s inv a i (stopping id) b (λ x. x) w);
  silent = λ w. absurd (passed s inv a i (stopping id) b (λ x. x) w);
  steady = λ w. absurd (passed s inv a i (stopping id) b (λ x. x) w);
  outcome = inr (
      inl (
        refl,
        i,
        id,
        inl refl,
        absent timed_out (stop_failed i id) s.log (λ e. ground arith) (not_late s inv a),
      ));
}

Reached-IsHalting : {s : System} → Reached s → IsHalting s
unfolding initial
Reached-IsHalting here = record {
  early = λ w i. tt;
  silent = λ w i id h. h;
  steady = λ w i h. h;
  outcome = λ h. h;
}
Reached-IsHalting (next r st) = Step-IsHalting st (Reached-IsHalting r)

-- A process that has ended with status 0 has stopped a container, and one that has ended with
-- another status has status 1 and has failed to stop a container, or to listen, or has run out of
-- time. It runs out of time only before the first request has passed once.Do: then no request is
-- served beyond it, none was canceled, and no container was asked to be stopped.
pub Reached-Outcome :
    (s : System) (n : ℕ) → Reached s → s.process ≡ exited n → Outcome s.handlers s.log (exited n)
Reached-Outcome s n r e =
    subst (Outcome s.handlers s.log) e (IsHalting.outcome (Reached-IsHalting r))
