-- ===== src/Session/Create.antt =====
-- gnomock.go: newContainer, StartCustom and Start; docker.go: setupContainerCleanup.
pub mod Failure
pub mod Ready
use gnomock.Base.{
  ℕ, zero, suc, Text, lit, Bool, Option, none, some, List, [], ◌∷◌, ◌++◌, ◌||◌, if◌then◌else◌,
}
use gnomock.Ports.{NamedPorts, default_tcp}
use gnomock.Container.{Container, docker_id, default_address}
use gnomock.Options.{
  Options, Setting, build_config, with_disable_auto_cleanup, with_host_mounts, with_healthcheck,
  with_init, with_use_local_images_first,
}
use gnomock.Errors.{GoError, wrap}
use gnomock.Engine.{World, Context, with_timeout}
use gnomock.Engine.Actions.{M, try, value, failed, pure, hang, wrapping, ◌>>=◌, ◌>>◌}
use gnomock.Docker.Client.{docker_connect, read_logs}
use gnomock.Docker.Start.{Cleanup, start_container}
use gnomock.Internal.{http_get, notify, cleaner_image, cleaner_port}
use gnomock.Session.Image.{build_image}
use gnomock.Session.Stop.{new_session, stop_all}
use gnomock.Session.Wait.{wait, initf}

-- The two results of a start: (*Container, error).
pub record Started : Type 0 where
  pub container : Option Container
  pub failure : Option GoError

module _ (w : World) (fuel : ℕ) where
  -- The deferred function of newContainer, for the results of a `return`.
  unfoldable pub undo_start : Options → Option Container → GoError → M Started
  undo_start cfg c e = if cfg.debug then pure (record { container = c; failure = some e }) else do
    stopped ← try (stop_all w (c ∷ []))
    elim stopped [
      | value u ↦ pure (record { container = none; failure = some e })
      | failed f ↦ pure (record { container = c; failure = some e })
    ]

  -- setupLogForwarding: the container is given what its Stop has to close.
  unfoldable pub setup_log_forwarding : Container → M Container
  setup_log_forwarding c = do
    wrapping (lit "can't create log reader") (read_logs w (docker_id c))
    pure (record c { on_stop = some (docker_id c) })

  -- newContainer from the health check on.
  unfoldable pub make_ready : Context → Options → Container → M Started
  make_ready ctx cfg c = do
    healthy ← try (wait w fuel ctx c cfg)
    elim healthy [
      | failed e ↦ undo_start cfg (some c) (wrap (lit "can't connect to container") e)
      | value u ↦ do
        ready ← try (initf w c cfg)
        elim ready [
          | failed e ↦ undo_start cfg (some c) (wrap (lit "can't init container") e)
          | value v ↦ pure (record { container = some c; failure = none })
        ]
    ]

  -- newContainer once the container runs. `return nil, err` sets the named result `c` to nil
  -- before the deferred function reads it.
  unfoldable pub finish_start : Context → Options → Container → M Started
  finish_start ctx cfg c = do
    forwarded ← try (setup_log_forwarding c)
    elim forwarded [
      | failed e ↦ undo_start cfg none (wrap (lit "can't setup log forwarding") e)
      | value d ↦ make_ready ctx cfg d
    ]

  abbrev not_started : Text → GoError → M Started
  not_started prefix e = pure (record { container = none; failure = some (wrap prefix e) })

  unfoldable pub new_container : Cleanup → Text → NamedPorts → Options → M Started
  new_container cleanup image ports cfg = do
    let ctx = with_timeout cfg.ctx cfg.timeout
    connected ← try (docker_connect w)
    elim connected [
      | failed e ↦ not_started (lit "can't create docker client") e
      | value u ↦ do
        started ← try (start_container w fuel cleanup ctx image ports cfg)
        elim started [
          | failed e ↦ not_started (lit "can't start container") e
          | value c ↦ finish_start ctx cfg c
        ]
    ]

  abbrev or_given : Option NamedPorts → NamedPorts → NamedPorts
  or_given none ports = ports
  or_given (some custom) ports = custom

  -- StartCustom
  unfoldable pub start_custom_with : Cleanup → Text → NamedPorts → List Setting → M Started
  start_custom_with cleanup image ports opts = do
    let cfg = build_config opts
    ready ← try (new_session w cfg.debug)
    elim ready [
      | failed e ↦ not_started (lit "can't create new gnomock session") e
      | value u ↦
          new_container cleanup (build_image image) (or_given cfg.custom_named_ports ports) cfg
    ]

  -- The options of a sidecar for the container `id`.
  unfoldable pub sidecar_options : Text → Options → List Setting
  sidecar_options id cfg =
      with_disable_auto_cleanup
      ∷ with_host_mounts (lit "/var/run/docker.sock") (lit "/var/run/docker.sock")
      ∷ with_healthcheck (λ c. http_get w (default_address c))
      ∷ with_init (λ c. notify (default_address c) id)
      ∷ (if cfg.use_local_images_first then with_use_local_images_first ∷ [] else [])

  -- What the goroutine sends: the sidecar's identifier, if it started.
  abbrev sent_id : Option GoError → Option Container → Option Text
  sent_id none (some c) = some c.id
  sent_id none none = none
  sent_id (some e) c = none

  abbrev pub send_sidecar : M Started → M (Option Text)
  send_sidecar start = start >>= λ sc. pure (sent_id sc.failure sc.container)

  abbrev pub needs_no_sidecar : Options → Bool
  needs_no_sidecar cfg = cfg.disable_auto_cleanup || cfg.reuse || cfg.debug

  -- setupContainerCleanup. The number bounds the depth of sidecars of sidecars.
  unfoldable pub setup_container_cleanup : ℕ → Cleanup
  setup_container_cleanup zero id cfg = hang
  setup_container_cleanup (suc depth) id cfg =
      if needs_no_sidecar cfg
      then pure none
      else send_sidecar (
          start_custom_with (setup_container_cleanup depth) cleaner_image (default_tcp cleaner_port)
            (sidecar_options id cfg))

  -- A container's sidecar has no sidecar of its own, so that a depth of two is enough.
  unfoldable pub start_custom : Text → NamedPorts → List Setting → M Started
  start_custom = start_custom_with (setup_container_cleanup 2)

-- Preset: Options, which may change the preset, then Image and Ports of the changed preset.
pub record Preset (S : Type 0) : Type 0 where
  pub options : S → List Setting × S
  pub image : S → Text
  pub ports : S → NamedPorts

-- Start
unfoldable pub start : {S : Type 0} → World → ℕ → Preset S → S → List Setting → M Started
start w fuel p s opts =
    let (preset_opts, s') = p.options s in
    start_custom w fuel (p.image s') (p.ports s') (preset_opts ++ opts)
