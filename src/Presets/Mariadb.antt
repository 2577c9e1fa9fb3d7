-- ===== src/Presets/Mariadb.antt =====
-- preset/mariadb/preset.go and options.go.
pub mod Setup
use gnomock.Base.{Text, ◌++◌, lit, if◌then◌else◌, List, ◌∷◌, is_empty, pos, []}
use gnomock.Engine.Actions.{◌>>=◌, ◌>>◌, M, kept_if}
use gnomock.Presets.Sql.{Client, sql_open, select_one, execute_queries, ping, kept_queries}
use gnomock.Ports.{default_tcp, NamedPorts}
use gnomock.Container.{Container, default_address}
use gnomock.Options.{Setting, with_healthcheck, with_env, with_init}
use gnomock.Engine.{History}

pub record P : Type 0 where
  pub db : Text
  pub user : Text
  pub password : Text
  pub queries : List Text
  pub queries_files : List Text
  pub version : Text

-- type Option func(*P)
abbrev pub MariadbOption : Type 0
MariadbOption = P → P

unfoldable pub with_user : Text → Text → MariadbOption
with_user user password p = record p { user = user; password = password }

unfoldable pub with_database : Text → MariadbOption
with_database db p = record p { db = db }

unfoldable pub with_queries : List Text → MariadbOption
with_queries queries p = record p { queries = p.queries ++ queries }

unfoldable pub with_queries_file : Text → MariadbOption
with_queries_file file p = record p { queries_files = p.queries_files ++ file ∷ [] }

unfoldable pub with_version : Text → MariadbOption
with_version version p = record p { version = version }

abbrev pub default_user : Text
default_user = lit "gnomock"

abbrev pub default_password : Text
default_password = lit "gnoria"

abbrev pub default_database : Text
default_database = lit "mydb"

abbrev pub default_version : Text
default_version = lit "10.5.8"

abbrev pub empty_preset : P
empty_preset = record {
  db = [];
  user = [];
  password = [];
  queries = [];
  queries_files = [];
  version = [];
}

abbrev apply_options : List MariadbOption → P → P
apply_options [] p = p
apply_options (opt ∷ opts) p = apply_options opts (opt p)

unfoldable pub preset : List MariadbOption → P
preset opts = apply_options opts empty_preset

unfoldable pub image : P → Text
image p = lit "docker.io/library/mariadb:" ++ p.version

unfoldable pub ports : P → NamedPorts
unfolding default_tcp
ports p = default_tcp (pos 3306)

abbrev or_default : Text → Text → Text
or_default given_text default_text = if is_empty given_text then default_text else given_text

unfoldable pub set_defaults : P → P
set_defaults p = record p {
  db = or_default p.db default_database;
  user = or_default p.user default_user;
  password = or_default p.password default_password;
  version = or_default p.version default_version;
}

unfoldable pub conn_str : P → Text → Text
conn_str p addr =
    p.user
    ++ (b':'
        ∷ (p.password
            ++ (lit "@tcp(" ++ (addr ++ (lit ")/" ++ (p.db ++ lit "?multiStatements=true"))))))

-- The connection string for a container.
abbrev pub conn_of : P → Container → Text
conn_of p c = conn_str p (default_address c)

module _ (s : Client) where
  unfoldable pub connect : P → Container → M (Unit {0})
  connect p c = sql_open s (lit "mysql") (conn_of p c) >> ping s (conn_of p c)

  unfoldable pub healthcheck : P → Container → M (Unit {0})
  healthcheck p c = connect p c >> select_one s (conn_of p c)

  unfoldable pub initf : P → Container → M (Unit {0})
  initf p c = connect p c >> execute_queries s (conn_of p c) p.queries_files p.queries

  -- The preset after initf, which puts the texts of the files before its own queries.
  unfoldable pub after_initf : P → Container → History → P
  after_initf p c h =
      kept_if (connect p c h).0
        (λ u. record p { queries = kept_queries s p.queries_files p.queries }) p

  -- That it silences the logger of the driver, once, is not kept.
  unfoldable pub options : P → List Setting × P
  options p =
      let p' = set_defaults p in
      (
        with_healthcheck (healthcheck p')
            ∷ with_env (lit "MYSQL_USER=" ++ p'.user)
            ∷ with_env (lit "MYSQL_PASSWORD=" ++ p'.password)
            ∷ with_env (lit "MYSQL_DATABASE=" ++ p'.db)
            ∷ with_env (lit "MYSQL_RANDOM_ROOT_PASSWORD=yes")
            ∷ with_init (initf p')
            ∷ [],
        p',
      )
