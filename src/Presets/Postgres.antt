-- ===== src/Presets/Postgres.antt =====
-- preset/postgres/preset.go and options.go.
pub mod Setup
use gnomock.Base.{
  Text, ◌++◌, lit, if◌then◌else◌, [], List, ◌∷◌, not, is_empty, ◌&&◌, text_eq, pos, contains,
}
use gnomock.Engine.Actions.{
  ◌>>=◌, ◌>>◌, Tried, M, wrapping, value, pure, try, failed, fail, kept_if,
}
use gnomock.Presets.Sql.{Client, sql_open, select_one, ping, execute_queries, exec, kept_queries}
use gnomock.Ports.{default_tcp, NamedPorts}
use gnomock.Container.{Container, default_port_of}
use gnomock.Options.{Setting, with_healthcheck, with_env, with_init}
use gnomock.Base.Decimal.{itoa}
use gnomock.Errors.{error}
use gnomock.Engine.{History}

pub record P : Type 0 where
  pub db : Text
  pub queries : List Text
  pub queries_files : List Text
  pub user : Text
  pub password : Text
  pub timezone : Text
  pub version : Text

-- type Option func(*P)
abbrev pub PostgresOption : Type 0
PostgresOption = P → P

unfoldable pub with_user : Text → Text → PostgresOption
with_user user password p = record p { user = user; password = password }

unfoldable pub with_database : Text → PostgresOption
with_database db p = record p { db = db }

unfoldable pub with_queries : List Text → PostgresOption
with_queries queries p = record p { queries = p.queries ++ queries }

unfoldable pub with_queries_file : Text → PostgresOption
with_queries_file file p = record p { queries_files = p.queries_files ++ file ∷ [] }

unfoldable pub with_version : Text → PostgresOption
with_version version p = record p { version = version }

unfoldable pub with_timezone : Text → PostgresOption
with_timezone timezone p = record p { timezone = timezone }

abbrev pub default_user : Text
default_user = lit "postgres"

abbrev pub default_password : Text
default_password = lit "password"

abbrev pub default_database : Text
default_database = lit "postgres"

abbrev pub default_ssl_mode : Text
default_ssl_mode = lit "disable"

abbrev pub default_version : Text
default_version = lit "12.5"

abbrev pub empty_preset : P
empty_preset = record {
  db = [];
  queries = [];
  queries_files = [];
  user = [];
  password = [];
  timezone = [];
  version = [];
}

abbrev apply_options : List PostgresOption → P → P
apply_options [] p = p
apply_options (opt ∷ opts) p = apply_options opts (opt p)

unfoldable pub preset : List PostgresOption → P
preset opts = apply_options opts empty_preset

unfoldable pub image : P → Text
image p = lit "docker.io/library/postgres:" ++ p.version

unfoldable pub ports : P → NamedPorts
unfolding default_tcp
ports p = default_tcp (pos 5432)

unfoldable pub set_defaults : P → P
set_defaults p = record p {
  db = if is_empty p.db then default_database else p.db;
  version = if is_empty p.version then default_version else p.version;
}

-- The query that creates the user, if a name and a password are given.
unfoldable pub user_queries : P → List Text
user_queries p =
    if not (is_empty p.user) && not (is_empty p.password)
    then (lit "create user "
        ++ (p.user ++ (lit " with superuser password '" ++ (p.password ++ lit "'"))))
      ∷ []
    else []

unfoldable pub add_user : P → P
unfolding user_queries
add_user p = record p { queries = p.queries ++ user_queries p }

unfoldable pub conn_str : Container → Text → Text
conn_str c db =
    lit "host="
    ++ (c.host
        ++ (lit " port="
            ++ (itoa (default_port_of c)
                ++ (lit " user="
                    ++ (default_user
                        ++ (lit " password="
                            ++ (default_password
                                ++ (lit " dbname="
                                    ++ (db ++ (lit " sslmode=" ++ default_ssl_mode))))))))))

module _ (s : Client) where
  unfoldable pub connect : Container → Text → M (Unit {0})
  connect c db = sql_open s (lit "postgres") (conn_str c db) >> ping s (conn_str c db)

  unfoldable pub healthcheck : Container → M (Unit {0})
  healthcheck c = connect c default_database >> select_one s (conn_str c default_database)

  unfoldable pub duplicate_message : Text → Text
  duplicate_message db = lit "pq: database \"" ++ (db ++ lit "\" already exists")

  -- What follows `create database`: an existing database is no error.
  unfoldable pub unless_exists : Text → Tried (Unit {0}) → M (Unit {0})
  unless_exists db (value u) = pure tt
  unless_exists db (failed e) =
      if contains (error e) (duplicate_message db) then pure tt else fail e

  unfoldable pub create_database : Container → Text → M (Unit {0})
  create_database c db = if text_eq db default_database then pure tt else do
    connect c default_database
    created ← try (exec s (conn_str c default_database) (lit "create database " ++ db))
    unless_exists db created

  -- initf
  unfoldable pub initf : P → Container → M (Unit {0})
  initf p c = do
    create_database c p.db
    connect c p.db
    wrapping (lit "can't execute setup queries")
        (execute_queries s (conn_str c p.db) p.queries_files p.queries)

  -- The preset after initf, which puts the texts of the files before its own queries.
  unfoldable pub after_initf : P → Container → History → P
  after_initf p c h =
      kept_if ((create_database c p.db >> connect c p.db) h).0
        (λ u. record p { queries = kept_queries s p.queries_files p.queries }) p

  unfoldable pub options : P → List Setting × P
  options p =
      let p' = add_user (set_defaults p) in
      (
        (with_healthcheck healthcheck
              ∷ with_env (lit "POSTGRES_PASSWORD=" ++ default_password)
              ∷ with_env (lit "TZ=" ++ p'.timezone)
              ∷ with_init (initf p')
              ∷ [])
            ++ (if is_empty p'.timezone then [] else with_env (lit "TZ=" ++ p'.timezone) ∷ []),
        p',
      )
