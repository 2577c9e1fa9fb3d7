-- ===== src/Presets/Cockroachdb/Setup.antt =====
-- What a successful initialization of cockroachdb has executed.
use gnomock.Base.{Text, ◌≡◌, ◌∷◌, lit, List, arith, [], ◌++◌, reverse, ◌∙◌, ap, inr, inl}
use gnomock.Presets.Sql.{Client, ping, exec, execute_queries, ping_call, exec_call}
use gnomock.Presets.Sql.Queries.{sql_open-ok, Reads, executed, execute_queries-calls}
use gnomock.Presets.Cockroachdb.{P, initf, options, connect, set_defaults, conn_str}
use gnomock.Container.{Container}
use gnomock.Engine.{History}
use gnomock.Engine.Actions.{ok, ended, returned, Reply-cases, refused, panicked, hung}

module _ (s : Client) where
  connect-ping :
      (c : Container) (db : Text) (h h' : History)
      → connect s c db h ≡ (ok tt, h')
      → h' ≡ ping_call (conn_str c db) ∷ h
  unfolding connect ping
  connect-ping c db h h' e =
      let opened = sql_open-ok s (lit "postgres") (conn_str c db) (ping s (conn_str c db)) h h' e in
      ground arith

  -- A new database and a connection to it.
  abbrev pub new_database : Container → Text → History → History
  new_database c db h =
      ping_call (conn_str c db)
      ∷ exec_call (conn_str c []) (lit "create database " ++ db)
      ∷ ping_call (conn_str c [])
      ∷ h

  execution :
      (p : P) (c : Container) (k h h' : History)
      → execute_queries s (conn_str c p.db) p.queries_files p.queries k ≡ (ok tt, h')
      → k ≡ new_database c p.db h
      → (texts : List Text) × Reads s p.queries_files texts
        × (h' ≡ executed (conn_str c p.db) (reverse texts ++ p.queries) (new_database c p.db h))
  execution p c k h h' e same =
      let (texts, reads, calls) =
        execute_queries-calls s (conn_str c p.db) p.queries_files p.queries k h' e in
      (
        texts,
        reads,
        calls ∙ ap (λ l. executed (conn_str c p.db) (reverse texts ++ p.queries) l) same,
      )

  initf_calls :
      (p : P) (c : Container) (h h' : History)
      → initf s p c h ≡ (ok tt, h')
      → (texts : List Text) × Reads s p.queries_files texts
        × (h' ≡ executed (conn_str c p.db) (reverse texts ++ p.queries) (new_database c p.db h))
  unfolding initf exec
  initf_calls p c h h' e = elim (ended (connect s c [] h)) [
    | returned u g q ↦
        let query = lit "create database " ++ p.db in
        elim (Reply-cases (s.execs (conn_str c []) query g)) [
          | inr (x, r) ↦ absurd (ground arith)
          | inl (v, r) ↦ elim (ended (connect s c p.db (exec_call (conn_str c []) query ∷ g))) [
            | returned z k t ↦ execution p c k h h' (ground arith) (
                connect-ping c p.db (exec_call (conn_str c []) query ∷ g) k t
                ∙ ap (λ l. ping_call (conn_str c p.db) ∷ exec_call (conn_str c []) query ∷ l)
                    (connect-ping c [] h g q))
            | refused x k t ↦ absurd (ground arith)
            | panicked k t ↦ absurd (ground arith)
            | hung k t ↦ absurd (ground arith)
          ]
        ]
    | refused x g q ↦ absurd (ground arith)
    | panicked g q ↦ absurd (ground arith)
    | hung g q ↦ absurd (ground arith)
  ]

  -- A successful initialization with the preset that Options leaves has made these calls and no
  -- others: the creation of the preset's database, or of the default one, a connection to it, and
  -- there the texts of the files, the last file first, and the queries, in order.
  pub initf-new_database :
      (p : P) (c : Container) (h h' : History)
      → initf s (options s p).1 c h ≡ (ok tt, h')
      → (texts : List Text) × Reads s p.queries_files texts
        × (h'
            ≡ executed
                (conn_str c (set_defaults p).db)
                (reverse texts ++ p.queries)
                (new_database c (set_defaults p).db h))
  unfolding options set_defaults
  initf-new_database p c h h' e = initf_calls (set_defaults p) c h h' e
