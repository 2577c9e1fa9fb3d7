-- ===== src/Presets/Mssql/Setup.antt =====
-- What a successful initialization of mssql has executed.
use gnomock.Base.{Text, ◌≡◌, lit, ◌∷◌, ◌++◌, List, inl, reverse, arith, inr, ◌∙◌, ap}
use gnomock.Engine.Actions.{◌>>◌, ok, Reply-cases, ended, returned, refused, panicked, hung}
use gnomock.Presets.Sql.{Client, sql_open, exec, execute_queries, exec_call}
use gnomock.Presets.Sql.Queries.{sql_open-ok, Reads, executed, execute_queries-calls}
use gnomock.Presets.Mssql.{
  P, initf, options, connect, create_database, set_defaults, conn_of, master_db,
}
use gnomock.Container.{Container}
use gnomock.Engine.{History, Call}

module _ (s : Client) where
  -- The query that creates the database.
  abbrev pub creation : P → Container → Call
  creation p c = exec_call (conn_of p c master_db) (lit "create database " ++ p.db)

  create_database-calls :
      (p : P) (c : Container) (h h' : History)
      → create_database s p c h ≡ (ok tt, h')
      → h' ≡ creation p c ∷ h
  unfolding create_database exec
  create_database-calls p c h h' e =
      elim (Reply-cases (s.execs (conn_of p c master_db) (lit "create database " ++ p.db) h)) [
        | inl (u, q) ↦ ground arith
        | inr (x, q) ↦ absurd (ground arith)
      ]

  initf_calls :
      (p : P) (c : Container) (h h' : History)
      → initf s p c h ≡ (ok tt, h')
      → (texts : List Text) × Reads s p.queries_files texts
        × (h' ≡ executed (conn_of p c p.db) (reverse texts ++ p.queries) (creation p c ∷ h))
  unfolding initf connect
  initf_calls p c h h' e =
      let execution = execute_queries s (conn_of p c p.db) p.queries_files p.queries in
      let opened =
        sql_open-ok s (lit "sqlserver") (conn_of p c master_db)
          (create_database s p c >> (sql_open s (lit "sqlserver") (conn_of p c p.db) >> execution))
          h h' e in
      elim (ended (create_database s p c h)) [
        | returned u g q ↦
            let run =
              sql_open-ok s (lit "sqlserver") (conn_of p c p.db) execution g h' (ground arith) in
            let (texts, reads, calls) =
              execute_queries-calls s (conn_of p c p.db) p.queries_files p.queries g h' run in
            (
              texts,
              reads,
              calls
                  ∙ ap (λ k. executed (conn_of p c p.db) (reverse texts ++ p.queries) k)
                      (create_database-calls p c h g q),
            )
        | refused x g q ↦ absurd (ground arith)
        | panicked g q ↦ absurd (ground arith)
        | hung g q ↦ absurd (ground arith)
      ]

  -- A successful initialization with the preset that Options leaves has made these calls and no
  -- others: the creation of the preset's database, or of the default one, in the database master;
  -- and in the new database the texts of the files, the last file first, and the queries, in order.
  pub initf-creation :
      (p : P) (c : Container) (h h' : History)
      → initf s (options s p).1 c h ≡ (ok tt, h')
      → (texts : List Text) × Reads s p.queries_files texts
        × (h'
            ≡ executed
                (conn_of (set_defaults p) c (set_defaults p).db)
                (reverse texts ++ p.queries)
                (creation (set_defaults p) c ∷ h))
  unfolding options set_defaults
  initf-creation p c h h' e = initf_calls (set_defaults p) c h h' e
