-- ===== src/Session/Wait.antt =====
-- gnomock.go: envAwareClone, wait and initf.
pub mod Health
use gnomock.Base.{ℕ, zero, suc, pos, Text, lit, ltb_ℤ, Option, none, some, [], if◌then◌else◌}
use gnomock.Container.{Container}
use gnomock.Options.{Options}
use gnomock.Errors.{GoError, plain, wrap}
use gnomock.Engine.{World, Context}
use gnomock.Engine.Actions.{M, try, value, failed, pure, fail, crash, hang, ◌>>=◌}
use gnomock.Docker.Client.{select_done, is_in_docker}

module _ (w : World) where
  -- The address by which this process reaches the container.
  unfoldable pub reachable_host : Container → Text
  reachable_host c =
      if is_in_docker w
      then (if w.host_docker_internal then lit "host.docker.internal" else c.gateway)
      else c.host

  unfoldable pub env_aware_clone : Container → Container
  env_aware_clone c = record {
    id = c.id;
    host = reachable_host c;
    ports = c.ports;
    gateway = [];
    on_stop = none;
  }

  -- `canceled after error: %w`; with no error so far `%w` prints as a fault and wraps nothing.
  unfoldable pub canceled_after : Option GoError → GoError
  canceled_after none = plain (lit "canceled after error: %!w(<nil>)")
  canceled_after (some e) = wrap (lit "canceled after error") e

  -- The rounds of the loop; `last` is `lastErr`.
  unfoldable pub wait_loop : ℕ → Context → Container → Options → Option GoError → M (Unit {0})
  wait_loop zero ctx c cfg last = hang
  wait_loop (suc fuel) ctx c cfg last = do
    over ← select_done w ctx
    if over then fail (canceled_after last) else do
      r ← try (cfg.healthcheck (env_aware_clone c))
      elim r [ value u ↦ pure u | failed e ↦ wait_loop fuel ctx c cfg (some e) ]

  -- time.NewTicker panics unless its interval is positive.
  unfoldable pub wait : ℕ → Context → Container → Options → M (Unit {0})
  wait fuel ctx c cfg =
      if ltb_ℤ (pos 0) cfg.healthcheck_interval then wait_loop fuel ctx c cfg none else crash

  unfoldable pub initf : Container → Options → M (Unit {0})
  initf c cfg = cfg.init (env_aware_clone c)
