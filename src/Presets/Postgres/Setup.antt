-- ===== src/Presets/Postgres/Setup.antt =====
-- What a successful initialization of postgres has done.
use gnomock.Base.{
  Text, if◌then◌else◌, List, is_empty, ◌≡◌, text_eq, lit, Bool-cases, ◌∷◌, ◌++◌, reverse, inl,
  arith, inr,
}
use gnomock.Presets.Sql.{Client, sql_open, exec, ping, exec_call, ping_call, execute_queries}
use gnomock.Presets.Sql.Queries.{Reads, executed, execute_queries-calls}
use gnomock.Presets.Postgres.{
  options, set_defaults, P, initf, create_database, connect, add_user, unless_exists,
  default_database, user_queries, conn_str,
}
use gnomock.Container.{Container}
use gnomock.Engine.{History}
use gnomock.Engine.Actions.{wrapping, ok, ended, returned, Reply-cases, refused, panicked, hung}

-- The calls that create a database other than the default one.
abbrev pub database_created : Container → Text → History → History
database_created c db h =
    if text_eq db default_database
    then h
    else exec_call (conn_str c default_database) (lit "create database " ++ db)
      ∷ ping_call (conn_str c default_database)
      ∷ h

-- The database of the preset, or the default one.
abbrev pub chosen_database : P → Text
chosen_database p = if is_empty p.db then default_database else p.db

module _ (s : Client) where
  connect-calls :
      (c : Container) (db : Text) (h h' : History)
      → connect s c db h ≡ (ok tt, h')
      → h' ≡ ping_call (conn_str c db) ∷ h
  unfolding connect sql_open ping
  connect-calls c db h h' e = elim (Reply-cases (s.opens (lit "postgres") (conn_str c db))) [
    | inr (x, p) ↦ absurd (ground arith)
    | inl (u, p) ↦ ground arith
  ]

  create_database-calls :
      (c : Container) (db : Text) (h h' : History)
      → create_database s c db h ≡ (ok tt, h')
      → h' ≡ database_created c db h
  unfolding create_database exec unless_exists
  create_database-calls c db h h' e = elim (Bool-cases (text_eq db default_database)) [
    | inl same ↦ ground arith
    | inr other ↦ elim (ended (connect s c default_database h)) [
      | returned u g p ↦
          elim (Reply-cases
            (s.execs (conn_str c default_database) (lit "create database " ++ db) g)) [
              | inl (v, q) ↦ ground (arith, connect-calls c default_database h g)
              | inr (x, q) ↦ ground (arith, connect-calls c default_database h g)
            ]
      | refused x g p ↦ absurd (ground arith)
      | panicked g p ↦ absurd (ground arith)
      | hung g p ↦ absurd (ground arith)
    ]
  ]

  execute-of_wrapping :
      (conn : Text) (files queries : List Text) (h h' : History)
      → wrapping (lit "can't execute setup queries") (execute_queries s conn files queries) h
        ≡ (ok tt, h')
      → execute_queries s conn files queries h ≡ (ok tt, h')
  execute-of_wrapping conn files queries h h' e =
      elim (ended (execute_queries s conn files queries h)) [
        | returned i k q ↦ ground arith
        | refused x k q ↦ absurd (ground arith)
        | panicked k q ↦ absurd (ground arith)
        | hung k q ↦ absurd (ground arith)
      ]

  initf_calls :
      (p : P) (c : Container) (h h' : History)
      → initf s p c h ≡ (ok tt, h')
      → (texts : List Text) × Reads s p.queries_files texts
        × (h'
            ≡ executed
                (conn_str c p.db)
                (reverse texts ++ p.queries)
                (ping_call (conn_str c p.db) ∷ database_created c p.db h))
  unfolding initf
  initf_calls p c h h' e = elim (ended (create_database s c p.db h)) [
    | returned u g q ↦ elim (ended (connect s c p.db g)) [
      | returned v k r ↦
          let (texts, reads, calls) =
            execute_queries-calls s (conn_str c p.db) p.queries_files p.queries k h' (
              execute-of_wrapping (conn_str c p.db) p.queries_files p.queries k h'
                (ground arith)) in
          (texts, reads, ground (arith, create_database-calls c p.db h g, connect-calls c p.db g k))
      | refused x k r ↦ absurd (ground arith)
      | panicked k r ↦ absurd (ground arith)
      | hung k r ↦ absurd (ground arith)
    ]
    | refused x g q ↦ absurd (ground arith)
    | panicked g q ↦ absurd (ground arith)
    | hung g q ↦ absurd (ground arith)
  ]

  -- A successful initialization with the preset that Options leaves has made these calls and no
  -- others: the creation of the database, unless it is the default one; a connection to it; the
  -- texts of the files, the last file first; the queries, in order; and the creation of the user,
  -- if a name and a password are given.
  pub initf-options :
      (p : P) (c : Container) (h h' : History)
      → initf s (options s p).1 c h ≡ (ok tt, h')
      → (texts : List Text) × Reads s p.queries_files texts
        × (h'
            ≡ executed
                (conn_str c (chosen_database p))
                (reverse texts ++ (p.queries ++ user_queries p))
                (ping_call (conn_str c (chosen_database p))
                  ∷ database_created c (chosen_database p) h))
  unfolding options add_user set_defaults user_queries
  initf-options p c h h' e = initf_calls (add_user (set_defaults p)) c h h' e
