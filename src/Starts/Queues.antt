-- ===== src/Starts/Queues.antt =====
-- A start of rabbitmq and of kafka with messages.
use gnomock.Engine.Actions.{ok}
use gnomock.Engine.{World, History}
use gnomock.Session.Create.{Started, start, Preset}
use gnomock.Session.Wait.{env_aware_clone}
use gnomock.Options.{Setting, build_config}
use gnomock.Container.{Container, address}
use gnomock.Presets.Files.Decoded.{AllDecoded}
use gnomock.Presets.Rabbitmq
use gnomock.Presets.Rabbitmq.Publish
use gnomock.Presets.Kafka
use gnomock.Presets.Kafka.Init.{build_config-options}
use gnomock.Presets.Kafka.Ingest
use gnomock.Presets.Kafka.Ingest.{initf-Sent}
use gnomock.Starts.{KeepsInit, start-initialized}
use gnomock.Base.{◌≤◌, ℕ, length, List, ◌≡◌, ◌+◌, none, arith, some, ◌++◌}

abbrev pub rabbitmq_preset : Rabbitmq.Client → Preset Rabbitmq.P
rabbitmq_preset s = record {
  options = Rabbitmq.options s;
  image = Rabbitmq.image;
  ports = Rabbitmq.ports;
}

abbrev pub kafka_preset : Kafka.Client → Preset Kafka.P
kafka_preset s = record { options = Kafka.options s; image = Kafka.image; ports = Kafka.ports }

kafka_init :
    (s : Kafka.Client) (p : Kafka.P)
    → 1 ≤ length p.topics + length p.messages
    → (build_config (Kafka.options s p).0).init ≡ Kafka.initf s (Kafka.set_defaults p)
kafka_init s p some_given = ground (arith, build_config-options s p)

-- If a loop over a map meets every entry once, a start of kafka with a topic or a message of its own,
-- whose options do not replace the initialization, and that returns without an error, returns a
-- container, and its last calls, on that container, are: one connection to the broker; one request
-- for the given topics and then, in some order, the topics of all messages, those of the preset and
-- those of its files; and, in some order of its own, one write for each topic of a message, with its
-- messages in their order.
pub start-Sent :
    (w : World) (fuel : ℕ) (s : Kafka.Client) (p : Kafka.P) (opts : List Setting) (h h' : History)
    (st : Started)
    → start w fuel (kafka_preset s) p opts h ≡ (ok st, h')
    → st.failure ≡ none
    → KeepsInit opts
    → 1 ≤ length p.topics + length p.messages
    → Ingest.Ranges s
    → (c : Container) × (k : History) × (more : List Kafka.Message) × (st.container ≡ some c)
      × AllDecoded s.files p.messages_files more
      × Ingest.Sent s
          (Kafka.set_defaults p)
          (address (env_aware_clone w c) Kafka.broker_port_name)
          (p.messages ++ more)
          k
          h'
unfolding Kafka.set_defaults
start-Sent w fuel s p opts h h' st e none_failed keeps some_given all =
    let (c, k, there, done) =
      start-initialized w fuel (kafka_preset s) p opts (Kafka.initf s (Kafka.set_defaults p)) h h'
        st e none_failed keeps (kafka_init s p some_given) in
    let (more, decoded, calls) =
      initf-Sent s all (Kafka.set_defaults p) (env_aware_clone w c) k h' done in
    (c, k, more, there, decoded, calls)
