-- ===== src/Tests/Starts.antt =====
-- Whole starts with presets, in containers that run already.
use mathlib.Core.List.Perm
use gnomock.Base.{
  leb, ◌%◌, ◌^◌, none, some, [], ◌∷◌, split, lit, Text, List, ℕ, text_eq, refl, pos, equal_fold,
  has_prefix, ◌≡◌, arith, if◌then◌else◌, Bool,
}
use gnomock.Engine.Trace.{rounds}
use gnomock.Presets.Postgres
use gnomock.Starts.Databases.{postgres_preset}
use gnomock.Presets.Mongo
use gnomock.Presets.Mongo.Inserts.{DirsInserted}
use gnomock.Presets.Elastic
use gnomock.Presets.Elastic.Sending.{FilesIndexed}
use gnomock.Starts.Documents.{mongo_preset, start-inserted, elastic_preset, start-counted}
use gnomock.Starts.Queues.{kafka_preset, start-Sent, rabbitmq_preset}
use gnomock.Presets.Kafka
use gnomock.Presets.Kafka.Ingest
use gnomock.Presets.Kafka.{
  ingest_message_files, messages_by_topics, create_topics, send_each, send_messages_into_topic,
  has_init,
}
use gnomock.Base.Groups.{group_by}
use gnomock.Tests.Messages.{store, engine, mongo, elastic, broker, rabbit}
use gnomock.Tests.Presets.{shop, silent_sql, stream, note, broker as kafka_broker}
use gnomock.Engine.{World, History, reply, background, select}
use gnomock.Engine.Actions.{Result, ok}
use gnomock.Options.{
  Setting, with_container_reuse, with_container_name, with_healthcheck, with_env, with_init,
  build_config,
}
use gnomock.Session.Create.{
  Started, start, start_custom, start_custom_with, new_container, finish_start,
  setup_log_forwarding, make_ready,
}
use gnomock.Session.Stop.{new_session}
use gnomock.Docker.Client.{docker_connect, is_in_docker, host_addr, select_done, read_logs}
use gnomock.Docker.Start.{start_container, find_reusable_container}
use gnomock.Docker.Network.{wait_for_container_network, inspect_network, bound_named_ports}
use gnomock.Base.Decimal.{itoa, digits, atoi}
use gnomock.Base.Assoc.{insert, lookup}
use gnomock.Container.{docker_id, parse_id, Container, address}
use gnomock.Session.Wait.{wait, wait_loop, initf, env_aware_clone, reachable_host}
use gnomock.Session.Image.{build_image, default_tag}
use gnomock.Base.Int.{int_eq, wrap_int64}
use gnomock.Ports.{find, get, tcp, default_tcp}
use gnomock.Presets.Files
use gnomock.Presets.Files.Decoded.{AllDecoded}
use gnomock.Presets.Rabbitmq
use gnomock.Presets.Rabbitmq.Publish
use gnomock.Starts.{KeepsInit}
use gnomock.Tests.Worlds.{calm}
use gnomock.Presets.Elastic.Ingest.{waited}

abbrev at_port : Text → ℕ → World
at_port name n = record calm {
  done = λ ctx h. leb 9 (rounds h);
  port_int = λ port. pos n;
  inspects = λ id h. reply (record {
    bound = (name, record { host_ip = []; host_port = lit "32768" } ∷ []) ∷ [];
    gateway = [];
  });
}

abbrev reusing : List Setting
reusing = with_container_reuse ∷ with_container_name (lit "c") ∷ []

reusing-KeepsInit : KeepsInit reusing
unfolding with_container_reuse with_container_name
reusing-KeepsInit o = refl

abbrev started_of : Result Started → Started
started_of (ok s) = s
started_of _ = record { container = none; failure = none }

abbrev rabbit_run : Result Started × History
rabbit_run = start (at_port (lit "5672/tcp") 5672) 9 (rabbitmq_preset broker) rabbit reusing []

abbrev shop_run : Result Started × History
shop_run = start (at_port (lit "5432/tcp") 5432) 9 (postgres_preset silent_sql) shop reusing []

abbrev mongo_run : Result Started × History
mongo_run =
    start (at_port (lit "27017/tcp") 27017) 9 (mongo_preset store)
      (record mongo { data_path = lit "p" }) reusing []

start-inserted_example :
    (c : Container) × (k : History) × (dirs : List (Text × Bool)) × ((started_of
        mongo_run.0).container
      ≡ some c)
    × (store.read_dir (lit "p") ≡ reply dirs)
    × DirsInserted store
        (lit "p")
        dirs
        (Mongo.connect_call (
            Mongo.uri_of
              (Mongo.set_defaults (record mongo { data_path = lit "p" }))
              (env_aware_clone (at_port (lit "27017/tcp") 27017) c))
          ∷ k)
        mongo_run.1
unfolding start start_custom start_custom_with build_config new_session new_container docker_connect
    start_container find_reusable_container itoa digits is_in_docker host_addr find get
    wait_for_container_network select_done inspect_network bound_named_ports atoi insert
    finish_start setup_log_forwarding read_logs docker_id make_ready wait wait_loop initf
    build_image split default_tag tcp default_tcp lit text_eq env_aware_clone reachable_host
    parse_id equal_fold int_eq has_prefix with_container_reuse with_container_name with_healthcheck
    with_env with_init Mongo.options Mongo.initf Mongo.connect Mongo.setup_dbs Mongo.setup_db
    Mongo.read_sub_path Mongo.setup_collections Mongo.setup_collection Mongo.insert_each
    Mongo.healthcheck Mongo.ports Mongo.set_defaults Mongo.use_custom_user
start-inserted_example =
    start-inserted (at_port (lit "27017/tcp") 27017) 9 store (record mongo { data_path = lit "p" })
      reusing [] mongo_run.1 (started_of mongo_run.0) refl refl reusing-KeepsInit refl

abbrev elastic_run : Result Started × History
elastic_run =
    start (at_port (lit "9200/tcp") 9200) 9
      (elastic_preset engine (at_port (lit "9200/tcp") 9200) background 1) elastic reusing []

start-counted_example :
    (c : Container) × (k g : History) × (n m : ℕ) × ((started_of elastic_run.0).container ≡ some c)
    × FilesIndexed engine (at_port (lit "9200/tcp") 9200) background (lit "dir/f" ∷ []) k g n
    × (Elastic.total_doc_count engine
          (select background ∷ waited (at_port (lit "9200/tcp") 9200) engine background m g)
        ≡ (ok (wrap_int64 (n % 2 ^ 64)), elastic_run.1))
unfolding start start_custom start_custom_with build_config new_session new_container docker_connect
    start_container find_reusable_container itoa digits is_in_docker host_addr find get
    wait_for_container_network select_done inspect_network bound_named_ports atoi insert
    finish_start setup_log_forwarding read_logs docker_id make_ready wait wait_loop initf
    build_image split default_tag tcp default_tcp lit text_eq env_aware_clone reachable_host
    parse_id equal_fold int_eq has_prefix with_container_reuse with_container_name with_healthcheck
    with_env with_init Elastic.options Elastic.initf Elastic.connect Elastic.ingest_seed_files
    Elastic.ingest_file Elastic.ingest_docs Elastic.ingest_data Elastic.unless_error
    Elastic.await_docs Elastic.total_doc_count wrap_int64 Elastic.index_call Elastic.healthcheck
    Elastic.ports Elastic.set_defaults Elastic.info_call
start-counted_example =
    start-counted (at_port (lit "9200/tcp") 9200) 9 1 engine background elastic reusing []
      elastic_run.1 (started_of elastic_run.0) refl refl reusing-KeepsInit (omega arith)

-- Kafka has four ports.
abbrev kafka_world : World
kafka_world = record calm {
  port_int = λ port.
      if text_eq port (lit "2181/tcp")
      then pos 2181
      else if text_eq port (lit "3030/tcp")
      then pos 3030
      else if text_eq port (lit "8081/tcp")
      then pos 8081
      else Kafka.broker_port;
  inspects = λ id h. reply (record {
    bound =
        (lit "49092/tcp", record { host_ip = []; host_port = lit "49092" } ∷ [])
        ∷ (lit "2181/tcp", record { host_ip = []; host_port = lit "32768" } ∷ [])
        ∷ (lit "3030/tcp", record { host_ip = []; host_port = lit "32769" } ∷ [])
        ∷ (lit "8081/tcp", record { host_ip = []; host_port = lit "32770" } ∷ [])
        ∷ [];
    gateway = [];
  });
}

abbrev stream_run : Result Started × History
stream_run = start kafka_world 9 (kafka_preset kafka_broker) stream reusing []

start-Sent_example :
    (c : Container) × (k : History) × (more : List Kafka.Message) × ((started_of
        stream_run.0).container
      ≡ some c)
    × AllDecoded kafka_broker.files (lit "m.json" ∷ []) more
    × Ingest.Sent kafka_broker
        (Kafka.set_defaults stream)
        (address (env_aware_clone kafka_world c) Kafka.broker_port_name)
        (note ∷ more)
        k
        stream_run.1
unfolding start start_custom start_custom_with build_config new_session new_container docker_connect
    start_container find_reusable_container itoa digits is_in_docker host_addr find get
    wait_for_container_network select_done inspect_network bound_named_ports atoi insert
    finish_start setup_log_forwarding read_logs docker_id make_ready wait wait_loop initf
    build_image split default_tag tcp default_tcp lit text_eq env_aware_clone reachable_host
    parse_id equal_fold int_eq has_prefix with_container_reuse with_container_name with_healthcheck
    with_env with_init Kafka.options Kafka.initf Kafka.connect ingest_message_files Files.load_files
    Files.load_messages_from_file Files.read_messages create_topics send_each
    send_messages_into_topic messages_by_topics group_by lookup Kafka.set_defaults Kafka.healthcheck
    Kafka.ports has_init
start-Sent_example =
    start-Sent kafka_world 9 kafka_broker stream reusing [] stream_run.1 (started_of stream_run.0)
      refl refl reusing-KeepsInit (omega arith) (λ m h. Perm.refl m)
