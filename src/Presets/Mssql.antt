-- ===== src/Presets/Mssql.antt =====
-- preset/mssql/preset.go and options.go.
pub mod Setup
use gnomock.Base.{Text, ◌++◌, lit, if◌then◌else◌, List, Bool, ◌∷◌, is_empty, pos, [], false}
use gnomock.Engine.Actions.{◌>>=◌, ◌>>◌, M, wrapping, kept_if}
use gnomock.Presets.Sql.{Client, sql_open, select_one, execute_queries, exec, kept_queries}
use gnomock.Ports.{default_tcp, NamedPorts}
use gnomock.Container.{Container, default_address}
use gnomock.Options.{Setting, with_healthcheck, with_env, with_init}
use gnomock.Engine.{History}

pub record P : Type 0 where
  pub db : Text
  pub password : Text
  pub queries : List Text
  pub queries_files : List Text
  pub license : Bool
  pub version : Text

-- type Option func(*P)
abbrev pub MssqlOption : Type 0
MssqlOption = P → P

unfoldable pub with_admin_password : Text → MssqlOption
with_admin_password password p = record p { password = password }

unfoldable pub with_database : Text → MssqlOption
with_database db p = record p { db = db }

unfoldable pub with_queries : List Text → MssqlOption
with_queries queries p = record p { queries = p.queries ++ queries }

unfoldable pub with_license : Bool → MssqlOption
with_license accept p = record p { license = accept }

unfoldable pub with_queries_file : Text → MssqlOption
with_queries_file file p = record p { queries_files = p.queries_files ++ file ∷ [] }

unfoldable pub with_version : Text → MssqlOption
with_version version p = record p { version = version }

abbrev pub master_db : Text
master_db = lit "master"

abbrev pub default_password : Text
default_password = lit "Gn0m!ck~"

abbrev pub default_database : Text
default_database = lit "mydb"

abbrev pub default_version : Text
default_version = lit "2019-latest"

abbrev pub empty_preset : P
empty_preset = record {
  db = [];
  password = [];
  queries = [];
  queries_files = [];
  license = false;
  version = [];
}

abbrev apply_options : List MssqlOption → P → P
apply_options [] p = p
apply_options (opt ∷ opts) p = apply_options opts (opt p)

unfoldable pub preset : List MssqlOption → P
preset opts = apply_options opts empty_preset

unfoldable pub image : P → Text
image p = lit "mcr.microsoft.com/mssql/server:" ++ p.version

unfoldable pub ports : P → NamedPorts
unfolding default_tcp
ports p = default_tcp (pos 1433)

abbrev or_default : Text → Text → Text
or_default given_text default_text = if is_empty given_text then default_text else given_text

unfoldable pub set_defaults : P → P
set_defaults p = record p {
  db = or_default p.db default_database;
  password = or_default p.password default_password;
  version = or_default p.version default_version;
}

unfoldable pub conn_str : P → Text → Text → Text
conn_str p addr db =
    lit "sqlserver://sa:" ++ (p.password ++ (b'@' ∷ (addr ++ (lit "?database=" ++ db))))

-- The connection string for a container.
abbrev pub conn_of : P → Container → Text → Text
conn_of p c db = conn_str p (default_address c) db

module _ (s : Client) where
  -- Nothing is pinged.
  unfoldable pub connect : P → Container → Text → M (Unit {0})
  connect p c db = sql_open s (lit "sqlserver") (conn_of p c db)

  unfoldable pub healthcheck : P → Container → M (Unit {0})
  healthcheck p c = connect p c master_db >> select_one s (conn_of p c master_db)

  unfoldable pub create_database : P → Container → M (Unit {0})
  create_database p c =
      wrapping (lit "can't create database '" ++ (p.db ++ lit "'"))
        (exec s (conn_of p c master_db) (lit "create database " ++ p.db))

  unfoldable pub initf : P → Container → M (Unit {0})
  initf p c = do
    connect p c master_db
    create_database p c
    connect p c p.db
    execute_queries s (conn_of p c p.db) p.queries_files p.queries

  -- The preset after initf, which puts the texts of the files before its own queries.
  unfoldable pub after_initf : P → Container → History → P
  after_initf p c h =
      kept_if ((connect p c master_db >> (create_database p c >> connect p c p.db)) h).0
        (λ u. record p { queries = kept_queries s p.queries_files p.queries }) p

  unfoldable pub options : P → List Setting × P
  options p =
      let p' = set_defaults p in
      (
        (with_healthcheck (healthcheck p')
              ∷ with_env (lit "SA_PASSWORD=" ++ p'.password)
              ∷ with_init (initf p')
              ∷ [])
            ++ (if p'.license then with_env (lit "ACCEPT_EULA=Y") ∷ [] else []),
        p',
      )
