-- ===== src/Server.antt =====
-- cmd/server/presets.go: the presets that are known over HTTP.
pub mod Listen
use gnomock.Base.{[], ◌∷◌, none, some, ℤ, ℕ, List, Bool, pos, lit, Text, Option, true, false}
use gnomock.Engine.Actions.{◌>>=◌, ◌>>◌, M, ask, pure, ignore}
use gnomock.Engine.{World, Context, Call, client_call, History, Reply}
use gnomock.Session.Create.{Preset}
use gnomock.Registry.{AnyPreset, Registry, register}
use gnomock.Presets.Cassandra
use gnomock.Presets.Cockroachdb
use gnomock.Presets.Elastic
use gnomock.Presets.Influxdb
use gnomock.Presets.K3s
use gnomock.Presets.Kafka
use gnomock.Presets.Localstack
use gnomock.Presets.Mariadb
use gnomock.Presets.Memcached
use gnomock.Presets.Mongo
use gnomock.Presets.Mssql
use gnomock.Presets.Mysql
use gnomock.Presets.Postgres
use gnomock.Presets.Rabbitmq
use gnomock.Presets.Redis
use gnomock.Presets.Splunk
use gnomock.Presets.Sql
use gnomock.Presets.Splunk.Requests
use gnomock.Presets.Localstack.Calls.{Client as LocalstackClient}
use gnomock.Base.Decimal.{itoa, atoi}

-- The surroundings of the presets; the two contexts are those that their initializations get.
pub record Clients : Type 0 where
  pub world : World
  pub fuel : ℕ
  pub init_context : Context
  pub cassandra : Cassandra.Client
  pub cockroachdb : Sql.Client
  pub elastic : Elastic.Client
  pub influxdb : Influxdb.Client
  pub k3s : K3s.Client
  pub kafka : Kafka.Client
  pub localstack : LocalstackClient
  pub mariadb : Sql.Client
  pub memcached : Memcached.Client
  pub mongo : Mongo.Client
  pub mssql : Sql.Client
  pub mysql : Sql.Client
  pub postgres : Sql.Client
  pub rabbitmq : Rabbitmq.Client
  pub redis : Redis.Client
  pub splunk : Requests.Client

module _ (s : Clients) where
  abbrev any_preset : {S : Type 0} → Preset S → S → AnyPreset
  any_preset {S = S} p state = record { State = S; preset = p; state = state }

  -- The factory of preset/cassandra.
  unfoldable pub cassandra_preset : AnyPreset
  cassandra_preset =
      any_preset
        (record {
          options = Cassandra.options s.cassandra;
          image = Cassandra.image;
          ports = Cassandra.ports;
        })
        Cassandra.empty_preset

  -- The factory of preset/cockroachdb.
  unfoldable pub cockroachdb_preset : AnyPreset
  cockroachdb_preset =
      any_preset
        (record {
          options = Cockroachdb.options s.cockroachdb;
          image = Cockroachdb.image;
          ports = Cockroachdb.ports;
        })
        Cockroachdb.empty_preset

  -- The factory of preset/elastic.
  unfoldable pub elastic_preset : AnyPreset
  elastic_preset =
      any_preset
        (record {
          options = Elastic.options s.elastic s.world s.init_context s.fuel;
          image = Elastic.image;
          ports = Elastic.ports;
        })
        Elastic.empty_preset

  -- The factory of preset/influxdb.
  unfoldable pub influxdb_preset : AnyPreset
  influxdb_preset =
      any_preset
        (record {
          options = Influxdb.options s.influxdb;
          image = Influxdb.image;
          ports = Influxdb.ports;
        })
        Influxdb.empty_preset

  -- The factory of preset/k3s.
  unfoldable pub k3s_preset : AnyPreset
  k3s_preset =
      any_preset (record { options = K3s.options s.k3s; image = K3s.image; ports = K3s.ports })
        K3s.empty_preset

  -- The factory of preset/kafka.
  unfoldable pub kafka_preset : AnyPreset
  kafka_preset =
      any_preset
        (record { options = Kafka.options s.kafka; image = Kafka.image; ports = Kafka.ports })
        Kafka.empty_preset

  -- The factory of preset/localstack.
  unfoldable pub localstack_preset : AnyPreset
  localstack_preset =
      any_preset
        (record {
          options = Localstack.options s.localstack;
          image = Localstack.image;
          ports = Localstack.ports;
        })
        Localstack.empty_preset

  -- The factory of preset/mariadb.
  unfoldable pub mariadb_preset : AnyPreset
  mariadb_preset =
      any_preset
        (record {
          options = Mariadb.options s.mariadb;
          image = Mariadb.image;
          ports = Mariadb.ports;
        })
        Mariadb.empty_preset

  -- The factory of preset/memcached.
  unfoldable pub memcached_preset : AnyPreset
  memcached_preset =
      any_preset
        (record {
          options = Memcached.options s.memcached;
          image = Memcached.image;
          ports = Memcached.ports;
        })
        Memcached.empty_preset

  -- The factory of preset/mongo.
  unfoldable pub mongo_preset : AnyPreset
  mongo_preset =
      any_preset
        (record { options = Mongo.options s.mongo; image = Mongo.image; ports = Mongo.ports })
        Mongo.empty_preset

  -- The factory of preset/mssql.
  unfoldable pub mssql_preset : AnyPreset
  mssql_preset =
      any_preset
        (record { options = Mssql.options s.mssql; image = Mssql.image; ports = Mssql.ports })
        Mssql.empty_preset

  -- The factory of preset/mysql.
  unfoldable pub mysql_preset : AnyPreset
  mysql_preset =
      any_preset
        (record { options = Mysql.options s.mysql; image = Mysql.image; ports = Mysql.ports })
        Mysql.empty_preset

  -- The factory of preset/postgres.
  unfoldable pub postgres_preset : AnyPreset
  postgres_preset =
      any_preset
        (record {
          options = Postgres.options s.postgres;
          image = Postgres.image;
          ports = Postgres.ports;
        })
        Postgres.empty_preset

  -- The factory of preset/rabbitmq.
  unfoldable pub rabbitmq_preset : AnyPreset
  rabbitmq_preset =
      any_preset
        (record {
          options = Rabbitmq.options s.rabbitmq;
          image = Rabbitmq.image;
          ports = Rabbitmq.ports;
        })
        Rabbitmq.empty_preset

  -- The factory of preset/redis.
  unfoldable pub redis_preset : AnyPreset
  redis_preset =
      any_preset
        (record { options = Redis.options s.redis; image = Redis.image; ports = Redis.ports })
        Redis.empty_preset

  -- The factory of preset/splunk.
  unfoldable pub splunk_preset : AnyPreset
  splunk_preset =
      any_preset
        (record {
          options = Splunk.options s.world s.splunk s.init_context s.fuel;
          image = Splunk.image;
          ports = Splunk.ports;
        })
        Splunk.empty_preset

  -- The `init` of each imported package, in the order of the imports; that of k3s registers
  -- `kubernetes`.
  abbrev pub inits : List (Registry → Registry)
  inits =
      register (lit "cassandra") cassandra_preset
      ∷ register (lit "cockroachdb") cockroachdb_preset
      ∷ register (lit "elastic") elastic_preset
      ∷ register (lit "influxdb") influxdb_preset
      ∷ register (lit "kubernetes") k3s_preset
      ∷ register (lit "kafka") kafka_preset
      ∷ register (lit "localstack") localstack_preset
      ∷ register (lit "mariadb") mariadb_preset
      ∷ register (lit "memcached") memcached_preset
      ∷ register (lit "mongo") mongo_preset
      ∷ register (lit "mssql") mssql_preset
      ∷ register (lit "mysql") mysql_preset
      ∷ register (lit "postgres") postgres_preset
      ∷ register (lit "rabbitmq") rabbitmq_preset
      ∷ register (lit "redis") redis_preset
      ∷ register (lit "splunk") splunk_preset
      ∷ []

  abbrev pub initialize : List (Registry → Registry) → Registry → Registry
  initialize [] r = r
  initialize (init ∷ rest) r = initialize rest (init r)

  -- The registry when main begins.
  unfoldable pub registered : Registry
  registered = initialize inits []
