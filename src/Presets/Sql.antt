-- ===== src/Presets/Sql.antt =====
-- What the presets of SQL databases share: database/sql with its drivers, and the execution of the
-- queries of files and options.
pub mod Queries
use gnomock.Base.{Text, List, ◌∷◌, lit, [], ◌++◌}
use gnomock.Engine.Actions.{◌>>=◌, ◌>>◌, M, pure, given, ask, wrapping}
use gnomock.Engine.{Reply, Call, client_call, History, reply, refuse}

-- The answers of the database and of the file system. The files do not change.
pub record Client : Type 0 where
  -- sql.Open for a driver and a connection string, which connects to nothing yet
  pub opens : Text → Text → Reply (Unit {0})
  pub pings : Text → History → Reply (Unit {0})
  pub execs : Text → Text → History → Reply (Unit {0})
  -- QueryRow and Scan
  pub scans : Text → Text → History → Reply (Unit {0})
  pub read_file : Text → Reply Text

unfoldable pub ping_call : Text → Call
ping_call conn = client_call (lit "sql.Ping") (conn ∷ [])

unfoldable pub exec_call : Text → Text → Call
exec_call conn query = client_call (lit "sql.Exec") (conn ∷ query ∷ [])

unfoldable pub scan_call : Text → Text → Call
scan_call conn query = client_call (lit "sql.QueryRow") (conn ∷ query ∷ [])

module _ (s : Client) where
  unfoldable pub sql_open : Text → Text → M (Unit {0})
  sql_open driver conn = given (s.opens driver conn)

  unfoldable pub ping : Text → M (Unit {0})
  ping conn = ask (ping_call conn) (s.pings conn)

  unfoldable pub exec : Text → Text → M (Unit {0})
  exec conn query = ask (exec_call conn query) (s.execs conn query)

  -- db.QueryRow(`select 1`).Scan(&one)
  unfoldable pub select_one : Text → M (Unit {0})
  select_one conn = ask (scan_call conn (lit "select 1")) (s.scans conn (lit "select 1"))

  -- The loop over QueriesFiles: the text of each file is put before all queries so far.
  unfoldable pub add_files : List Text → List Text → M (List Text)
  add_files [] queries = pure queries
  add_files (f ∷ files) queries = do
    text ← wrapping (lit "can't read queries file '" ++ (f ++ lit "'")) (given (s.read_file f))
    add_files files (text ∷ queries)

  unfoldable pub exec_each : Text → List Text → M (Unit {0})
  exec_each conn [] = pure tt
  exec_each conn (q ∷ queries) = exec conn q >> exec_each conn queries

  unfoldable pub execute_queries : Text → List Text → List Text → M (Unit {0})
  execute_queries conn files queries = do all ← add_files files queries; exec_each conn all

  -- The preset's queries after the loop over its files, also when a file cannot be read.
  unfoldable pub kept_queries : List Text → List Text → List Text
  kept_queries [] queries = queries
  kept_queries (f ∷ files) queries = elim (s.read_file f) [
    | reply text ↦ kept_queries files (text ∷ queries)
    | refuse e ↦ queries
  ]
