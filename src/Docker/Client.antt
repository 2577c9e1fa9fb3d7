-- ===== src/Docker/Client.antt =====
-- docker.go: dockerConnect, readLogs, stopContainer and hostAddr.
use gnomock.Base.{Text, lit, is_empty, text_eq, Bool, Option, none, some, ◌∷◌, ◌++◌, if◌then◌else◌}
use gnomock.Errors.{env_client, wrap_before, error}
use gnomock.Engine.{World, Context, connect, container_stop, container_logs, select}
use gnomock.Engine.Actions.{ok, M, ask, try, value, failed, pure, fail, wrapping, ◌>>=◌}

module _ (w : World) where
  unfoldable pub docker_connect : M (Unit {0})
  docker_connect = do
    r ← try (ask connect w.connects)
    elim r [ value u ↦ pure u | failed e ↦ fail (wrap_before env_client (error e)) ]

  -- `select` between the end of a context and a ticker: true is the end of the context.
  unfoldable pub select_done : Context → M Bool
  select_done ctx h = (ok (w.done ctx h), select ctx ∷ h)

  unfoldable pub read_logs : Text → M (Unit {0})
  read_logs id = wrapping (lit "can't read logs") (ask (container_logs id) (w.logs id))

  unfoldable pub stop_container : Text → M (Unit {0})
  stop_container id =
      wrapping (lit "can't stop container " ++ id) (ask (container_stop id) (w.stops id))

  -- isInDocker
  unfoldable pub is_in_docker : Bool
  is_in_docker = text_eq (w.getenv (lit "GNOMOCK_ENV")) (lit "gnomockd")

  abbrev or_localhost : Option Text → Text
  or_localhost none = lit "127.0.0.1"
  or_localhost (some host) = if is_empty host then lit "127.0.0.1" else host

  unfoldable pub host_addr : Text
  host_addr =
      let docker_host = w.getenv (lit "DOCKER_HOST") in
      if is_empty docker_host then lit "127.0.0.1" else or_localhost (w.url_hostname docker_host)
