-- ===== src/Presets/Kafka/Init.antt =====
-- Which configurations initialize kafka.
use gnomock.Presets.Kafka.{P, Client, options, initf, set_defaults, has_init}
use gnomock.Options.{build_config, with_healthcheck, with_env, with_init, nop_init}
use gnomock.Base.{◌≡◌, if◌then◌else◌, ltb, length, ◌||◌, arith}

module _ (s : Client) where
  -- The initialization that the options of the preset configure: that of the preset if it has a
  -- topic or a message of its own, and otherwise none, whatever files of messages it has.
  pub build_config-options :
      (p : P)
      → (build_config (options s p).0).init ≡ (
          if ltb 0 (length p.topics) || ltb 0 (length p.messages)
          then initf s (set_defaults p)
          else nop_init)
  unfolding build_config options has_init set_defaults with_healthcheck with_env with_init
  build_config-options p = ground arith
