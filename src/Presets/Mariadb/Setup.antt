-- ===== src/Presets/Mariadb/Setup.antt =====
-- What a successful initialization of mariadb has executed.
use gnomock.Base.{Text, ◌≡◌, List, ◌∷◌, lit, reverse, ◌++◌}
use gnomock.Presets.Sql.{Client, ping_call}
use gnomock.Presets.Sql.Queries.{Reads, executed, opened-executed}
use gnomock.Presets.Mariadb.{P, initf, options, connect, set_defaults, conn_of}
use gnomock.Container.{Container}
use gnomock.Engine.{History}
use gnomock.Engine.Actions.{ok}

module _ (s : Client) where
  -- A successful initialization with the preset that Options leaves has made these calls and no
  -- others, on one connection as the preset's user, or the default one, to its database: the
  -- connection, the texts of the files, the last file first, and the queries, in order.
  pub initf-queries :
      (p : P) (c : Container) (h h' : History)
      → initf s (options s p).1 c h ≡ (ok tt, h')
      → (texts : List Text) × Reads s p.queries_files texts
        × (h'
            ≡ executed
                (conn_of (set_defaults p) c)
                (reverse texts ++ p.queries)
                (ping_call (conn_of (set_defaults p) c) ∷ h))
  unfolding initf connect options set_defaults
  initf-queries p c h h' e =
      let conn = conn_of (set_defaults p) c in
      opened-executed s (lit "mysql") conn p.queries_files p.queries h h' e
