-- ===== src/Options/Merge.antt =====
-- How options combine: what a caller's options leave of a preset's.
use gnomock.Base.{List, [], ◌∷◌, ◌++◌, ◌≡◌, refl, if◌then◌else◌, Option, some, pos, none, arith}
use gnomock.Options.{Options, Setting, apply_all, with_options, build_config, initial}
use gnomock.Ports.{NamedPorts}
use gnomock.Base.Int.{ltb_ℤ}

pub apply_all-append :
    (xs ys : List Setting) (o : Options) → apply_all (xs ++ ys) o ≡ apply_all ys (apply_all xs o)
apply_all-append [] ys o = refl
apply_all-append (x ∷ xs) ys o = apply_all-append xs ys (x o)

-- Options are applied in order, so that those of a caller, which stand behind those of a preset,
-- act on what the preset has left.
pub build_config-append :
    (xs ys : List Setting) → build_config (xs ++ ys) ≡ apply_all ys (build_config xs)
unfolding build_config
build_config-append xs ys = apply_all-append xs ys initial

-- The options that a set of options is merged into: all but five fields are kept.
abbrev pub SameBesides : Options → Options → Type 0
SameBesides a b =
    (a.privileged ≡ b.privileged)
    × (a.cmd ≡ b.cmd)
    × (a.entrypoint ≡ b.entrypoint)
    × (a.host_mounts ≡ b.host_mounts)
    × (a.disable_auto_cleanup ≡ b.disable_auto_cleanup)
    × (a.use_local_images_first ≡ b.use_local_images_first)
    × (a.auth ≡ b.auth)
    × (a.extra_hosts ≡ b.extra_hosts)
    × (a.reuse ≡ b.reuse)
    × (a.networks ≡ b.networks)
    × (a.ctx ≡ b.ctx)
    × (a.init ≡ b.init)
    × (a.healthcheck ≡ b.healthcheck)
    × (a.healthcheck_interval ≡ b.healthcheck_interval)
    × (a.log_writer ≡ b.log_writer)

abbrev pub first_given : Option NamedPorts → Option NamedPorts → Option NamedPorts
first_given none b = b
first_given (some ports) b = some ports

-- A caller's WithOptions behind any options: a positive timeout and a non-nil set of ports replace
-- the earlier ones, the environment is added to, and the debug flag and the name are always
-- replaced. All else of the given options is dropped, the initialization, the health check, the
-- privileged flag, the command and the cleanup flag among it.
pub build_config-with_options :
    (opts : List Setting) (o : Options)
    → let before = build_config opts in
      let after = build_config (opts ++ with_options o ∷ []) in
      (after.timeout ≡ (if ltb_ℤ (pos 0) o.timeout then o.timeout else before.timeout))
      × (after.env ≡ before.env ++ o.env)
      × (after.debug ≡ o.debug)
      × (after.container_name ≡ o.container_name)
      × (after.custom_named_ports ≡ first_given o.custom_named_ports before.custom_named_ports)
      × SameBesides after before
unfolding with_options
build_config-with_options opts o =
    rw (build_config-append opts (with_options o ∷ [])) (ground arith)
