-- ===== src/Presets/Kafka.antt =====
-- preset/kafka/preset.go and options.go.
pub mod Topics
pub mod Ingest
pub mod Init
use gnomock.Base.{
  none, some, Text, ◌++◌, ℤ, true, lit, if◌then◌else◌, [], List, Bool, ◌∷◌, pos, ltb, is_empty,
  false, map, length, ◌||◌,
}
use gnomock.Engine.Actions.{
  value, failed, ◌>>=◌, ◌>>◌, M, wrapping, pure, closing, ask, Tried, given, fail, kept_if, look,
}
use gnomock.Ports.{tcp, NamedPorts}
use gnomock.Engine.{History, Call, client_call, Reply, http_get}
use gnomock.Container.{Container, address}
use gnomock.Base.Assoc.{lookup, insert, Assoc}
use gnomock.Options.{Setting, with_healthcheck, with_env, with_init}
use gnomock.Base.Decimal.{itoa}
use gnomock.Presets.Files.{Files, load_files, kept_messages}
use gnomock.Base.Groups.{group_by}

pub record Message : Type 0 where
  pub topic : Text
  pub key : Text
  pub value : Text
  pub time : ℤ

pub record P : Type 0 where
  pub version : Text
  pub topics : List Text
  pub messages : List Message
  pub messages_files : List Text
  pub use_schema_registry : Bool

-- The answers of kafka-go, net/http and the file system. The files do not change.
pub record Client : Type 0 where
  pub dials : Text → History → Reply (Unit {0})
  pub api_versions : History → Reply (Unit {0})
  pub creates_topics : List Text → History → Reply (Unit {0})
  pub close_conn : Reply (Unit {0})
  pub writes : Text → Text → List Message → History → Reply (Unit {0})
  pub close_writer : Text → Reply (Unit {0})
  pub new_request : Text → Reply (Unit {0})
  pub do_request : Text → History → Reply (Unit {0})
  pub close_body : Reply (Unit {0})
  -- the order in which a loop meets the entries of messagesByTopics: each loop has one of its own
  pub ranges : Assoc (List Message) → History → Assoc (List Message)
  pub files : Files Message

-- type Option func(*P)
abbrev pub KafkaOption : Type 0
KafkaOption = P → P

unfoldable pub with_version : Text → KafkaOption
with_version version p = record p { version = version }

unfoldable pub with_topics : List Text → KafkaOption
with_topics topics p = record p { topics = p.topics ++ topics }

unfoldable pub with_messages : List Message → KafkaOption
with_messages messages p = record p { messages = p.messages ++ messages }

unfoldable pub with_messages_file : Text → KafkaOption
with_messages_file file p = record p { messages_files = p.messages_files ++ file ∷ [] }

unfoldable pub with_schema_registry : KafkaOption
with_schema_registry p = record p { use_schema_registry = true }

abbrev pub broker_port_name : Text
broker_port_name = lit "broker"

abbrev pub schema_registry_name : Text
schema_registry_name = lit "registry"

abbrev pub default_version : Text
default_version = lit "2.5.1-L0"

abbrev pub broker_port : ℤ
broker_port = pos 49092

abbrev pub empty_preset : P
empty_preset = record {
  version = [];
  topics = [];
  messages = [];
  messages_files = [];
  use_schema_registry = false;
}

abbrev apply_options : List KafkaOption → P → P
apply_options [] p = p
apply_options (opt ∷ opts) p = apply_options opts (opt p)

unfoldable pub preset : List KafkaOption → P
preset opts = apply_options opts empty_preset

unfoldable pub image : P → Text
image p = lit "docker.io/lensesio/fast-data-dev:" ++ p.version

unfoldable pub ports : P → NamedPorts
unfolding tcp
ports p =
    (broker_port_name, record (tcp broker_port) { host_port = broker_port })
    ∷ (lit "zookeeper", tcp (pos 2181))
    ∷ (lit "web", tcp (pos 3030))
    ∷ (schema_registry_name, tcp (pos 8081))
    ∷ []

unfoldable pub set_defaults : P → P
set_defaults p = record p { version = if is_empty p.version then default_version else p.version }

unfoldable pub dial_call : Text → Call
dial_call addr = client_call (lit "kafka.Dial") (addr ∷ [])

unfoldable pub create_topics_call : List Text → Call
create_topics_call topics = client_call (lit "kafka.CreateTopics") topics

message_texts : List Message → List Text
message_texts [] = []
message_texts (m ∷ messages) = m.key ∷ m.value ∷ itoa m.time ∷ message_texts messages

unfoldable pub write_call : Text → Text → List Message → Call
unfolding message_texts
write_call addr topic messages =
    client_call (lit "kafka.WriteMessages") (addr ∷ topic ∷ message_texts messages)

unfoldable pub messages_by_topics : List Message → Assoc (List Message)
unfolding group_by
messages_by_topics messages = group_by (λ m. m.topic) messages

module _ (s : Client) where
  unfoldable pub connect : Container → M (Unit {0})
  connect c = let addr = address c broker_port_name in ask (dial_call addr) (s.dials addr)

  unfoldable pub create_topics : List Text → M (Unit {0})
  create_topics topics = ask (create_topics_call topics) (s.creates_topics topics)

  unfoldable pub check_registry : Container → M (Unit {0})
  check_registry c = do
    let url = lit "http://" ++ address c schema_registry_name
    wrapping (lit "invalid request") (given (s.new_request url))
    wrapping (lit "schema registry is not available") (ask (http_get url) (s.do_request url))
    wrapping (lit "error closing schema registry response body") (given s.close_body)

  unfoldable pub healthcheck : P → Container → M (Unit {0})
  healthcheck p c = do
    wrapping (lit "can't connect to kafka") (connect c)
    closing s.close_conn (do
      wrapping (lit "can't get version info")
          (ask (client_call (lit "kafka.ApiVersions") []) s.api_versions)
      wrapping (lit "can't create topic") (create_topics (lit "gnomock" ∷ []))
      if p.use_schema_registry then check_registry c else pure tt)

  unfoldable pub send_messages_into_topic : Text → Text → List Message → M (Unit {0})
  send_messages_into_topic addr topic messages = closing (s.close_writer topic) (
      wrapping (lit "write messages failed")
        (ask (write_call addr topic messages) (s.writes addr topic messages)))

  -- The second loop over messagesByTopics.
  unfoldable pub send_each : Text → Assoc (List Message) → M (Unit {0})
  send_each addr [] = pure tt
  send_each addr ((topic, messages) ∷ rest) =
      wrapping (lit "can't send messages into topic '" ++ (topic ++ lit "'"))
        (send_messages_into_topic addr topic messages)
      >> send_each addr rest

  -- ingestMessageFiles
  unfoldable pub ingest_message_files : P → Container → M (Unit {0})
  ingest_message_files p c = do
    messages ← load_files s.files p.messages_files p.messages
    let by_topics = messages_by_topics messages
    keys ← look (s.ranges by_topics)
    wrapping (lit "can't create topics") (create_topics (p.topics ++ map (λ e. e.0) keys))
    entries ← look (s.ranges by_topics)
    send_each (address c broker_port_name) entries

  unfoldable pub initf : P → Container → M (Unit {0})
  initf p c = do
    wrapping (lit "can't connect to kafka") (connect c)
    closing s.close_conn (ingest_message_files p c)

  -- The preset after ingestMessageFiles: it keeps the messages of the files, and then the topics of
  -- all messages.
  unfoldable pub after_files : P → History → P
  after_files p h =
      let kept = record p { messages = kept_messages s.files p.messages_files p.messages } in
      kept_if (load_files s.files p.messages_files p.messages []).0
        (λ all. record kept {
          topics = p.topics ++ map (λ e. e.0) (s.ranges (messages_by_topics all) h);
        })
        kept

  unfoldable pub after_initf : P → Container → History → P
  after_initf p c h =
      kept_if (connect c h).0 (λ u. after_files p (dial_call (address c broker_port_name) ∷ h)) p

  -- Whether anything is to be sent, as Options sees it.
  unfoldable pub has_init : P → Bool
  has_init p = ltb 0 (length p.topics) || ltb 0 (length p.messages)

  unfoldable pub options : P → List Setting × P
  unfolding has_init
  options p =
      let p' = set_defaults p in
      (
        (with_healthcheck (healthcheck p')
              ∷ with_env (lit "KAFKA_AUTO_CREATE_TOPICS_ENABLE=true")
              ∷ with_env (lit "ADV_HOST=127.0.0.1")
              ∷ with_env (lit "BROKER_PORT=" ++ itoa broker_port)
              ∷ with_env (lit "RUNTESTS=0")
              ∷ with_env (lit "RUNNING_SAMPLEDATA=0")
              ∷ with_env (lit "SAMPLEDATA=0")
              ∷ [])
            ++ (if has_init p' then with_init (initf p') ∷ [] else []),
        p',
      )
