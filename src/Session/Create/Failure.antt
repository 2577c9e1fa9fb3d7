-- ===== src/Session/Create/Failure.antt =====
-- What a failed start leaves behind.
use gnomock.Base.{
  ◌≡◌, ℕ, some, ◌⊎◌, none, lit, false, ◌∷◌, arith, Option, Bool-cases, true, inl, inr, [],
}
use gnomock.Container.{Container, docker_id}
use gnomock.Options.{Options}
use gnomock.Errors.{GoError, wrap}
use gnomock.Engine.{World, History, Context, container_logs, container_stop, refuse}
use gnomock.Engine.Actions.{ok, ended, returned, refused, panicked, hung, err}
use gnomock.Engine.Trace.{Made}
use gnomock.Docker.Client.{read_logs}
use gnomock.Session.Stop.{stop_all, stop_each, stop, new_session}
use gnomock.Session.Stop.Calls.{stop_all_single}
use gnomock.Session.Create.{Started, undo_start, setup_log_forwarding, finish_start, make_ready}
use gnomock.Session.Wait.{wait, initf}

module _ (w : World) (fuel : ℕ) where
  -- If the logs of a container that runs cannot be read, the start fails, returns no container and
  -- makes no call but the one for the logs: the container is not stopped.
  pub finish_start_leaks :
      (ctx : Context) (cfg : Options) (c : Container) (h : History) (e : GoError)
      → w.logs (docker_id c) h ≡ refuse e
      → finish_start w fuel ctx cfg c h ≡ (
        ok (record {
          container = none;
          failure = some (
              wrap
                (lit "can't setup log forwarding")
                (wrap (lit "can't create log reader") (wrap (lit "can't read logs") e)));
        }),
        container_logs (docker_id c) ∷ h,
      )
  unfolding finish_start setup_log_forwarding read_logs undo_start stop_all stop_each stop
      new_session
  finish_start_leaks ctx cfg c h e p = ground arith

  -- What becomes of a container that runs, from `k` to `g`, when its start fails: in debug mode it is
  -- returned as it is; otherwise it is stopped, and it is returned only if it cannot be stopped.
  abbrev pub Undone : Options → Container → History → Option Container → History → Type 0
  Undone cfg c k returned_container g =
      ((cfg.debug ≡ true) × (returned_container ≡ some c) × (g ≡ k))
      ⊎ ((cfg.debug ≡ false)
          × (((returned_container ≡ none)
                × (stop_all w (some c ∷ []) k ≡ (ok tt, g))
                × Made (container_stop (docker_id c)) g)
              ⊎ ((returned_container ≡ some c)
                  × (x : GoError) × (stop_all w (some c ∷ []) k ≡ (err x, g)))))

  undo_start-Undone :
      (cfg : Options) (c : Container) (e : GoError) (k g : History) (s : Started)
      → undo_start w fuel cfg (some c) e k ≡ (ok s, g)
      → (s.failure ≡ some e) × Undone cfg c k s.container g
  unfolding undo_start
  undo_start-Undone cfg c e k g s p = elim (Bool-cases cfg.debug) [
    | inl on ↦ (ground arith, inl (on, ground arith, ground arith))
    | inr off ↦ elim (ended (stop_all w (some c ∷ []) k)) [
      | returned u j q ↦ (
        ground arith,
        inr (off, inl (ground arith, ground arith, ground (arith, stop_all_single w c k))),
      )
      | refused x j q ↦ (ground arith, inr (off, inr (ground arith, x, ground arith)))
      | panicked j q ↦ absurd (ground arith)
      | hung j q ↦ absurd (ground arith)
    ]
  ]

  -- What a caller gets once a container runs and its logs are forwarded. Either the container has
  -- become healthy and was initialized, and it is returned without an error. Or its health check or
  -- its initialization has failed, and then the error says which; in debug mode nothing more is done
  -- and the container is returned with the error; otherwise Stop was called for it, and either docker
  -- was asked to stop it and no container is returned, or Stop has failed and the container is
  -- returned with the error.
  pub make_ready_results :
      (ctx : Context) (cfg : Options) (c : Container) (h g : History) (s : Started)
      → make_ready w fuel ctx cfg c h ≡ (ok s, g)
      → ((s.failure ≡ none)
          × (s.container ≡ some c)
          × (k : History) × (wait w fuel ctx c cfg h ≡ (ok tt, k))
          × (initf w c cfg k ≡ (ok tt, g)))
        ⊎ ((k : History) × (x : GoError) × (((wait w fuel ctx c cfg h ≡ (err x, k))
                × (s.failure ≡ some (wrap (lit "can't connect to container") x)))
              ⊎ ((j : History) × (wait w fuel ctx c cfg h ≡ (ok tt, j))
                  × (initf w c cfg j ≡ (err x, k))
                  × (s.failure ≡ some (wrap (lit "can't init container") x))))
            × Undone cfg c k s.container g)
  unfolding make_ready
  make_ready_results ctx cfg c h g s p = elim (ended (wait w fuel ctx c cfg h)) [
    | returned u j q ↦ elim (ended (initf w c cfg j)) [
      | returned v k r ↦ inl (ground arith, ground arith, j, ground arith, ground arith)
      | refused x k r ↦
          let (failed_by, undone) =
            undo_start-Undone cfg c (wrap (lit "can't init container") x) k g s (ground arith) in
          inr (k, x, inr (j, ground arith, r, failed_by), undone)
      | panicked k r ↦ absurd (ground arith)
      | hung k r ↦ absurd (ground arith)
    ]
    | refused x k q ↦
        let (failed_by, undone) =
          undo_start-Undone cfg c (wrap (lit "can't connect to container") x) k g s
            (ground arith) in
        inr (k, x, inl (q, failed_by), undone)
    | panicked k q ↦ absurd (ground arith)
    | hung k q ↦ absurd (ground arith)
  ]
