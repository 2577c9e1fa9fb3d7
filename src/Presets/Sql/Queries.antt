-- ===== src/Presets/Sql/Queries.antt =====
-- Which queries a successful initialization has executed.
use gnomock.Base.{Text, List, map, ◌≡◌, ◌∷◌, reverse, arith, [], ◌++◌, inr, inl, refl, ◌∙◌, ap}
use gnomock.Presets.Sql.{
  Client, execute_queries, exec_each, add_files, exec, exec_call, sql_open, ping, ping_call,
}
use mathlib.Core.List.{reverse_aux, reverse_aux-eq}
use gnomock.Engine.{History, reply}
use gnomock.Engine.Actions.{ok, Reply-cases, ended, returned, refused, panicked, hung, M, ◌>>◌}
use gnomock.Engine.Success.{bind-ok, ask-ok}

-- One execution for each query, in order.
abbrev pub executed : Text → List Text → History → History
executed conn [] h = h
executed conn (q ∷ queries) h = executed conn queries (exec_call conn q ∷ h)

module _ (s : Client) where
  -- These are the texts of the files.
  abbrev pub Reads : List Text → List Text → Type 0
  Reads files texts = map s.read_file files ≡ map reply texts

  add_files-Reads :
      (files queries all : List Text) (h h' : History)
      → add_files s files queries h ≡ (ok all, h')
      → (texts : List Text) × Reads files texts × (all ≡ reverse_aux texts queries) × (h' ≡ h)
  unfolding add_files
  add_files-Reads [] queries all h h' e = ([], refl, ground arith, ground arith)
  add_files-Reads (f ∷ files) queries all h h' e = elim (Reply-cases (s.read_file f)) [
    | inr (x, p) ↦ absurd (ground arith)
    | inl (t, p) ↦
        let (texts, reads, order, same) =
          add_files-Reads files (t ∷ queries) all h h' (ground arith) in
        (t ∷ texts, ground arith, order, same)
  ]

  exec_each-calls :
      (conn : Text) (queries : List Text) (h h' : History)
      → exec_each s conn queries h ≡ (ok tt, h')
      → h' ≡ executed conn queries h
  unfolding exec_each exec
  exec_each-calls conn [] h h' e = ground arith
  exec_each-calls conn (q ∷ queries) h h' e = elim (Reply-cases (s.execs conn q h)) [
    | inr (x, p) ↦ absurd (ground arith)
    | inl (u, p) ↦ exec_each-calls conn queries (exec_call conn q ∷ h) h' (ground arith)
  ]

  -- What a successful execution has run: the text of the last file first, and so on to the first
  -- file, and then the queries, in order.
  pub execute_queries-calls :
      (conn : Text) (files queries : List Text) (h h' : History)
      → execute_queries s conn files queries h ≡ (ok tt, h')
      → (texts : List Text) × Reads files texts × (h' ≡ executed conn (reverse texts ++ queries) h)
  unfolding execute_queries
  execute_queries-calls conn files queries h h' e = elim (ended (add_files s files queries h)) [
    | returned all g p ↦
        let (texts, reads, order, same) = add_files-Reads files queries all h g p in
        (texts, reads, ground (arith, exec_each-calls conn all g h', reverse_aux-eq texts queries))
    | refused x g p ↦ absurd (ground arith)
    | panicked g p ↦ absurd (ground arith)
    | hung g p ↦ absurd (ground arith)
  ]

  -- Opening a database and using it, when that succeeds.
  pub sql_open-ok :
      (driver conn : Text) (next : M (Unit {0})) (h h' : History)
      → (sql_open s driver conn >> next) h ≡ (ok tt, h')
      → next h ≡ (ok tt, h')
  unfolding sql_open
  sql_open-ok driver conn next h h' e = elim (Reply-cases (s.opens driver conn)) [
    | inr (x, p) ↦ absurd (ground arith)
    | inl (u, p) ↦ ground arith
  ]

  -- Opening, pinging and executing.
  pub opened-executed :
      (driver conn : Text) (files queries : List Text) (h h' : History)
      → ((sql_open s driver conn >> ping s conn) >> execute_queries s conn files queries) h
        ≡ (ok tt, h')
      → (texts : List Text) × Reads files texts
        × (h' ≡ executed conn (reverse texts ++ queries) (ping_call conn ∷ h))
  unfolding ping
  opened-executed driver conn files queries h h' e =
      let opened = sql_open s driver conn >> ping s conn in
      let (u, g, p, q) = bind-ok opened (λ _. execute_queries s conn files queries) h h' tt e in
      let (v, now) =
        ask-ok (ping_call conn) (s.pings conn) h g tt
          (sql_open-ok driver conn (ping s conn) h g p) in
      let (texts, reads, calls) = execute_queries-calls conn files queries g h' q in
      (texts, reads, calls ∙ ap (executed conn (reverse texts ++ queries)) now)
