-- ===== src/Presets/Cockroachdb.antt =====
-- preset/cockroachdb/preset.go and options.go.
pub mod Setup
use gnomock.Base.{Text, ◌++◌, lit, if◌then◌else◌, List, ◌∷◌, is_empty, pos, []}
use gnomock.Engine.Actions.{◌>>=◌, ◌>>◌, M, kept_if}
use gnomock.Presets.Sql.{Client, sql_open, select_one, ping, exec, execute_queries, kept_queries}
use gnomock.Ports.{default_tcp, NamedPorts}
use gnomock.Container.{Container, default_port_of}
use gnomock.Options.{Setting, with_healthcheck, with_command, with_init}
use gnomock.Base.Decimal.{itoa}
use gnomock.Engine.{History}

pub record P : Type 0 where
  pub version : Text
  pub db : Text
  pub queries : List Text
  pub queries_files : List Text

-- type Option func(*P)
abbrev pub CockroachOption : Type 0
CockroachOption = P → P

unfoldable pub with_version : Text → CockroachOption
with_version version p = record p { version = version }

unfoldable pub with_database : Text → CockroachOption
with_database db p = record p { db = db }

unfoldable pub with_queries : List Text → CockroachOption
with_queries queries p = record p { queries = p.queries ++ queries }

unfoldable pub with_queries_file : Text → CockroachOption
with_queries_file file p = record p { queries_files = p.queries_files ++ file ∷ [] }

abbrev pub default_version : Text
default_version = lit "v20.1.10"

abbrev pub default_database : Text
default_database = lit "mydb"

abbrev pub empty_preset : P
empty_preset = record { version = []; db = []; queries = []; queries_files = [] }

abbrev apply_options : List CockroachOption → P → P
apply_options [] p = p
apply_options (opt ∷ opts) p = apply_options opts (opt p)

unfoldable pub preset : List CockroachOption → P
preset opts = apply_options opts empty_preset

unfoldable pub image : P → Text
image p = lit "docker.io/cockroachdb/cockroach:" ++ p.version

unfoldable pub ports : P → NamedPorts
unfolding default_tcp
ports p = default_tcp (pos 26257)

unfoldable pub set_defaults : P → P
set_defaults p = record p {
  version = if is_empty p.version then default_version else p.version;
  db = if is_empty p.db then default_database else p.db;
}

unfoldable pub conn_str : Container → Text → Text
conn_str c db =
    lit "host="
    ++ (c.host
        ++ (lit " port="
            ++ (itoa (default_port_of c) ++ (lit " sslmode=disable user=root dbname=" ++ db))))

module _ (s : Client) where
  unfoldable pub connect : Container → Text → M (Unit {0})
  connect c db = sql_open s (lit "postgres") (conn_str c db) >> ping s (conn_str c db)

  unfoldable pub healthcheck : Container → M (Unit {0})
  healthcheck c = connect c [] >> select_one s (conn_str c [])

  unfoldable pub initf : P → Container → M (Unit {0})
  initf p c = do
    connect c []
    exec s (conn_str c []) (lit "create database " ++ p.db)
    connect c p.db
    execute_queries s (conn_str c p.db) p.queries_files p.queries

  -- The preset after initf, which puts the texts of the files before its own queries.
  unfoldable pub after_initf : P → Container → History → P
  after_initf p c h =
      kept_if
        ((connect c []
            >> (exec s (conn_str c []) (lit "create database " ++ p.db) >> connect c p.db))
          h).0
        (λ u. record p { queries = kept_queries s p.queries_files p.queries }) p

  unfoldable pub options : P → List Setting × P
  options p =
      let p' = set_defaults p in
      (
        with_healthcheck healthcheck
            ∷ with_command (lit "start-single-node") (lit "--insecure" ∷ [])
            ∷ with_init (initf p')
            ∷ [],
        p',
      )
