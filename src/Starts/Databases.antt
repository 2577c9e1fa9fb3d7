-- ===== src/Starts/Databases.antt =====
-- A start of a database with queries.
use gnomock.Session.Create.{Preset}
use gnomock.Container.{Container}
use gnomock.Presets.Sql
use gnomock.Presets.Postgres

abbrev pub postgres_preset : Sql.Client → Preset Postgres.P
postgres_preset s = record {
  options = Postgres.options s;
  image = Postgres.image;
  ports = Postgres.ports;
}
