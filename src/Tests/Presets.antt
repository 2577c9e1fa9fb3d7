-- ===== src/Tests/Presets.antt =====
-- Witnesses for the presets.
use gnomock.Presets.Sql
use gnomock.Presets.Kafka
use gnomock.Presets.Postgres
use gnomock.Presets.Sql.{exec, sql_open, ping, execute_queries, add_files, exec_each, ping_call}
use gnomock.Presets.Postgres.{create_database, conn_str, unless_exists, add_user, user_queries}
use gnomock.Engine.Actions.{value}
use gnomock.Base.{none, Text, lit, ◌∷◌, true, ◌≡◌, false, [], ◌++◌, arith, refl, pos}
use gnomock.Presets.Localstack.{P, health_check_address, health_url}
use gnomock.Presets.Localstack.Calls
use gnomock.Presets.Localstack.Endpoint.{health_check_address_lem}
use gnomock.Presets.Localstack.S3.Uploads.{init_s3-calls, uploaded, created}
use gnomock.Presets.Localstack.S3.{
  init_s3, create_buckets, create_each, create_bucket, upload_files, visit_all, visit, upload_file,
  key_of,
}
use gnomock.Engine.{reply}
use gnomock.Base.Decimal.{digits}
use gnomock.Base.Assoc.{Assoc}
use gnomock.Tests.Worlds.{box}
use gnomock.Presets.Localstack.Calls.{put_object_call, create_bucket_call}
use gnomock.Presets.Kafka.{
  ingest_message_files, messages_by_topics, create_topics, send_each, send_messages_into_topic,
}

abbrev old_localstack : P
old_localstack = record { services = lit "s3" ∷ []; s3_path = lit "data"; version = lit "0.11.2" }

health_check_address_lem_example :
    health_check_address old_localstack box ≡ health_url (lit "web") box
unfolding digits lit
health_check_address_lem_example =
    health_check_address_lem old_localstack box 0 11 2 (omega arith) (omega arith) (omega arith)
      refl

abbrev reported : Assoc Text
reported = (lit "sqs", lit "running") ∷ (lit "s3", lit "available") ∷ []

-- One bucket with one file, beside a file that is no bucket.
abbrev pub aws : Calls.Client
aws = record {
  new_request = λ url. reply tt;
  do_request = λ url h. reply tt;
  decode = λ h. reply reported;
  close_body = reply tt;
  new_session = λ url. reply tt;
  read_dir = λ path. reply ((lit "b", true) ∷ (lit "readme", false) ∷ []);
  path_join = λ a b. a ++ (b'/' ∷ b);
  walk = λ root.
      record { path = root; is_dir = true; failure = none }
      ∷ record { path = root ++ lit "/f"; is_dir = false; failure = none }
      ∷ [];
  opens_file = λ file. reply tt;
  closes_file = λ file. reply tt;
  creates_bucket = λ bucket h. reply tt;
  puts_object = λ bucket key file h. reply tt;
}

init_s3-calls_example :
    (put_object_call (lit "b") (lit "/f") (lit "data/b/f") ∷ create_bucket_call (lit "b") ∷ [])
    ≡ uploaded aws (lit "data") (lit "b" ∷ []) (created (lit "b" ∷ []) [])
unfolding init_s3 create_buckets create_each create_bucket upload_files visit_all visit upload_file
    key_of lit
init_s3-calls_example =
    init_s3-calls aws (lit "data") box ((lit "b", true) ∷ (lit "readme", false) ∷ []) []
      (put_object_call (lit "b") (lit "/f") (lit "data/b/f") ∷ create_bucket_call (lit "b") ∷ [])
      refl refl refl

abbrev pub silent_sql : Sql.Client
silent_sql = record {
  opens = λ driver conn. reply tt;
  pings = λ conn h. reply tt;
  execs = λ conn query h. reply tt;
  scans = λ conn query h. reply tt;
  read_file = λ file. reply (lit "create table a");
}

abbrev pub shop : Postgres.P
shop = record {
  db = lit "shop";
  queries = lit "select 1" ∷ [];
  queries_files = lit "a.sql" ∷ [];
  user = lit "u";
  password = lit "p";
  timezone = [];
  version = [];
}

abbrev pub note : Kafka.Message
note = record { topic = lit "t"; key = lit "k"; value = lit "v"; time = pos 0 }

abbrev pub broker : Kafka.Client
broker = record {
  dials = λ addr h. reply tt;
  api_versions = λ h. reply tt;
  creates_topics = λ topics h. reply tt;
  close_conn = reply tt;
  writes = λ addr topic messages h. reply tt;
  close_writer = λ topic. reply tt;
  new_request = λ url. reply tt;
  do_request = λ url h. reply tt;
  close_body = reply tt;
  ranges = λ m h. m;
  files = record {
    opens_file = λ file. reply tt;
    closes_file = λ file. reply tt;
    decodes = λ file. value note ∷ [];
  };
}

abbrev pub stream : Kafka.P
stream = record {
  version = [];
  topics = lit "u" ∷ [];
  messages = note ∷ [];
  messages_files = lit "m.json" ∷ [];
  use_schema_registry = false;
}
