-- ===== src/Session/Create/Ready.antt =====
-- What a start that succeeds has done at its end.
use gnomock.Base.{
  ◌≡◌, ℕ, some, none, ◌≢◌, Text, Option, List, Bool-cases, inl, ◌++◌, pos, arith, inr, lit, ◌∷◌, [],
}
use gnomock.Engine.{World, History, Context, with_timeout}
use gnomock.Container.{Container}
use gnomock.Options.{Options, Setting, build_config}
use gnomock.Errors.{GoError, wrap}
use gnomock.Session.Wait.{wait, initf, env_aware_clone}
use gnomock.Session.Wait.Health.{wait_loop-ok}
use gnomock.Session.Create.{
  Started, undo_start, setup_log_forwarding, finish_start, make_ready, new_container,
  start_custom_with, start_custom, start, Preset, setup_container_cleanup, or_given,
}
use gnomock.Engine.Actions.{ok, ended, returned, refused, panicked, hung}
use gnomock.Docker.Start.{Cleanup, start_container}
use gnomock.Ports.{NamedPorts}
use gnomock.Docker.Client.{docker_connect}
use gnomock.Base.Int.{ltb_ℤ}
use gnomock.Session.Stop.{new_session, stop_all}
use gnomock.Session.Image.{build_image}

module _ (w : World) (fuel : ℕ) where
  -- There is a container; the last health check of it passed, and after it nothing was called but
  -- its initialization, which succeeded.
  abbrev pub Ready : Options → Started → History → Type 0
  Ready cfg s h' =
      (c : Container) × (g : History) × (k : History) × (s.container ≡ some c)
      × (cfg.healthcheck (env_aware_clone w c) g ≡ (ok tt, k))
      × (cfg.init (env_aware_clone w c) k ≡ (ok tt, h'))

  undo_start-fails :
      (cfg : Options) (c : Option Container) (e : GoError) (h h' : History) (s : Started)
      → undo_start w fuel cfg c e h ≡ (ok s, h')
      → s.failure ≢ none
  unfolding undo_start
  undo_start-fails cfg c e h h' s p none_failed = elim (Bool-cases cfg.debug) [
    | inl d ↦ ground arith
    | inr d ↦ elim (ended (stop_all w (c ∷ []) h)) [
      | returned u g q ↦ ground arith
      | refused x g q ↦ ground arith
      | panicked g q ↦ ground arith
      | hung g q ↦ ground arith
    ]
  ]

  wait-ok :
      (ctx : Context) (cfg : Options) (c : Container) (h k : History)
      → wait w fuel ctx c cfg h ≡ (ok tt, k)
      → (g : History) × (cfg.healthcheck (env_aware_clone w c) g ≡ (ok tt, k))
  unfolding wait
  wait-ok ctx cfg c h k e = elim (Bool-cases (ltb_ℤ (pos 0) cfg.healthcheck_interval)) [
    | inl ticks ↦
        let (g, p) = wait_loop-ok w fuel ctx c cfg none h (ground arith) in (g, ground arith)
    | inr never ↦ absurd (ground arith)
  ]

  make_ready-Ready :
      (ctx : Context) (cfg : Options) (c : Container) (h h' : History) (s : Started)
      → make_ready w fuel ctx cfg c h ≡ (ok s, h')
      → s.failure ≡ none
      → Ready cfg s h'
  unfolding make_ready initf
  make_ready-Ready ctx cfg c h h' s p none_failed = elim (ended (wait w fuel ctx c cfg h)) [
    | returned u k q ↦ elim (ended (cfg.init (env_aware_clone w c) k)) [
      | returned v l r ↦
          let (g, healthy) = wait-ok ctx cfg c h k q in
          (c, g, k, ground arith, healthy, ground arith)
      | refused e l r ↦ absurd (
          undo_start-fails cfg (some c) (wrap (lit "can't init container") e) l h' s (ground arith)
            none_failed)
      | panicked l r ↦ absurd (ground arith)
      | hung l r ↦ absurd (ground arith)
    ]
    | refused e k q ↦ absurd (
        undo_start-fails cfg (some c) (wrap (lit "can't connect to container") e) k h' s
          (ground arith) none_failed)
    | panicked k q ↦ absurd (ground arith)
    | hung k q ↦ absurd (ground arith)
  ]

  finish_start-Ready :
      (ctx : Context) (cfg : Options) (c : Container) (h h' : History) (s : Started)
      → finish_start w fuel ctx cfg c h ≡ (ok s, h')
      → s.failure ≡ none
      → Ready cfg s h'
  unfolding finish_start
  finish_start-Ready ctx cfg c h h' s p none_failed =
      elim (ended (setup_log_forwarding w fuel c h)) [
        | returned d k q ↦ make_ready-Ready ctx cfg d k h' s (ground arith) none_failed
        | refused e k q ↦ absurd (
            undo_start-fails cfg none (wrap (lit "can't setup log forwarding") e) k h' s
              (ground arith) none_failed)
        | panicked k q ↦ absurd (ground arith)
        | hung k q ↦ absurd (ground arith)
      ]

  new_container-Ready :
      (cleanup : Cleanup) (image : Text) (ports : NamedPorts) (cfg : Options) (h h' : History)
      (s : Started)
      → new_container w fuel cleanup image ports cfg h ≡ (ok s, h')
      → s.failure ≡ none
      → Ready cfg s h'
  unfolding new_container
  new_container-Ready cleanup image ports cfg h h' s p none_failed =
      elim (ended (docker_connect w h)) [
        | refused e k q ↦ absurd (ground arith)
        | panicked k q ↦ absurd (ground arith)
        | hung k q ↦ absurd (ground arith)
        | returned u k q ↦
            let ctx = with_timeout cfg.ctx cfg.timeout in
            elim (ended (start_container w fuel cleanup ctx image ports cfg k)) [
              | returned c l r ↦ finish_start-Ready ctx cfg c l h' s (ground arith) none_failed
              | refused e l r ↦ absurd (ground arith)
              | panicked l r ↦ absurd (ground arith)
              | hung l r ↦ absurd (ground arith)
            ]
      ]

  start_custom-Ready :
      (image : Text) (ports : NamedPorts) (opts : List Setting) (h h' : History) (s : Started)
      → start_custom w fuel image ports opts h ≡ (ok s, h')
      → s.failure ≡ none
      → Ready (build_config opts) s h'
  unfolding start_custom start_custom_with
  start_custom-Ready image ports opts h h' s p none_failed =
      let cfg = build_config opts in
      elim (ended (new_session w cfg.debug h)) [
        | returned u k q ↦
            new_container-Ready (setup_container_cleanup w fuel 2) (build_image image)
              (or_given w fuel cfg.custom_named_ports ports) cfg k h' s (ground arith) none_failed
        | refused e k q ↦ absurd (ground arith)
        | panicked k q ↦ absurd (ground arith)
        | hung k q ↦ absurd (ground arith)
      ]

-- A start of a preset that returns without an error returns a container. The last health check of it
-- that the options configure passed, and after it nothing was called but the initialization that
-- they configure, which succeeded.
pub start-Ready :
    {S : Type 0} (w : World) (fuel : ℕ) (p : Preset S) (state : S) (opts : List Setting)
    (h h' : History) (s : Started)
    → start w fuel p state opts h ≡ (ok s, h')
    → s.failure ≡ none
    → Ready w fuel (build_config ((p.options state).0 ++ opts)) s h'
unfolding start
start-Ready w fuel p state opts h h' s e none_failed =
    let (preset_opts, state') = p.options state in
    start_custom-Ready w fuel (p.image state') (p.ports state') (preset_opts ++ opts) h h' s e
      none_failed
