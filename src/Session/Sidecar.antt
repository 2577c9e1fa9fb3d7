-- ===== src/Session/Sidecar.antt =====
-- A sidecar has no sidecar of its own.
use mathlib.Core.Path.{fun_ext}
use gnomock.Base.{ℕ, suc, none, Text, true, List, ◌≡◌, ap, sym, ◌∙◌, if◌then◌else◌, arith}
use gnomock.Ports.{NamedPorts, default_tcp}
use gnomock.Internal.{cleaner_image, cleaner_port}
use gnomock.Options.{
  Options, Setting, build_config, with_disable_auto_cleanup, with_host_mounts, with_healthcheck,
  with_init, with_use_local_images_first,
}
use gnomock.Engine.{World}
use gnomock.Engine.Actions.{pure}
use gnomock.Docker.Start.{Cleanup, start_container}
use gnomock.Session.Create.{
  new_container, start_custom_with, setup_container_cleanup, start_custom, sidecar_options,
  needs_no_sidecar, send_sidecar,
}
use gnomock.Docker.Start.{start_new_container}

module _ (w : World) (fuel : ℕ) where
  -- A start uses what it is given for the sidecar at its own configuration only.
  new_container_congr :
      (c d : Cleanup) (image : Text) (ports : NamedPorts) (cfg : Options)
      → ((id : Text) → c id cfg ≡ d id cfg)
      → new_container w fuel c image ports cfg ≡ new_container w fuel d image ports cfg
  unfolding new_container start_container start_new_container
  new_container_congr c d image ports cfg h =
      ap (λ k. new_container w fuel (λ id _. k id) image ports cfg) (fun_ext h)

  start_custom_with_congr :
      (c d : Cleanup) (image : Text) (ports : NamedPorts) (opts : List Setting)
      → ((id : Text) → c id (build_config opts) ≡ d id (build_config opts))
      → start_custom_with w fuel c image ports opts ≡ start_custom_with w fuel d image ports opts
  unfolding start_custom_with new_container start_container start_new_container
  start_custom_with_congr c d image ports opts h =
      ap (λ k. start_custom_with w fuel (λ id _. k id) image ports opts) (fun_ext h)

  disabled :
      (id : Text) (cfg : Options)
      → (build_config (sidecar_options w fuel id cfg)).disable_auto_cleanup ≡ true
  unfolding build_config sidecar_options with_disable_auto_cleanup with_host_mounts with_healthcheck
      with_init with_use_local_images_first
  disabled id cfg = ground arith

  cleanup_of_disabled :
      (d : ℕ) (id : Text) (cfg : Options)
      → cfg.disable_auto_cleanup ≡ true
      → setup_container_cleanup w fuel (suc d) id cfg ≡ pure none
  unfolding setup_container_cleanup
  cleanup_of_disabled d id cfg h = rw h

  cleanup_deep :
      (d : ℕ) (id : Text) (cfg : Options)
      → setup_container_cleanup w fuel (suc (suc d)) id cfg
        ≡ setup_container_cleanup w fuel 2 id cfg
  unfolding setup_container_cleanup
  cleanup_deep d id cfg =
      ap (λ k. if needs_no_sidecar w fuel cfg then pure none else send_sidecar w fuel k)
        (start_custom_with_congr (setup_container_cleanup w fuel (suc d))
          (setup_container_cleanup w fuel 1) cleaner_image (default_tcp cleaner_port)
          (sidecar_options w fuel id cfg)
          (λ j.
            cleanup_of_disabled d j (build_config (sidecar_options w fuel id cfg)) (disabled id cfg)
            ∙ sym (
                cleanup_of_disabled 0 j (build_config (sidecar_options w fuel id cfg))
                  (disabled id cfg))))

  -- However many levels of sidecars are allowed from two on, a start does the same: the sidecar of
  -- a container is started with no sidecar of its own.
  pub start_custom-deep :
      (d : ℕ) (image : Text) (ports : NamedPorts) (opts : List Setting)
      → start_custom_with w fuel (setup_container_cleanup w fuel (suc (suc d))) image ports opts
        ≡ start_custom w fuel image ports opts
  unfolding start_custom
  start_custom-deep d image ports opts =
      start_custom_with_congr (setup_container_cleanup w fuel (suc (suc d)))
        (setup_container_cleanup w fuel 2) image ports opts
        (λ id. cleanup_deep d id (build_config opts))
