-- ===== src/Tests/Messages.antt =====
-- Clients and presets that take messages, files of documents and documents.
use mathlib.Core.List.Perm
use gnomock.Base.{
  [], ◌∷◌, none, some, pos, lit, if◌then◌else◌, is_empty, ◌++◌, true, false, text_eq, List, refl,
  ◌≢◌, ◌≤◌, arith,
}
use gnomock.Presets.Rabbitmq
use gnomock.Presets.Mongo
use gnomock.Presets.Elastic
use gnomock.Presets.Files.{Files}
use gnomock.Presets.Rabbitmq.Publish
use gnomock.Presets.Rabbitmq.Publish.{initf-again}
use gnomock.Presets.Files
use gnomock.Presets.Files.Decoded.{AllDecoded}
use gnomock.Tests.Worlds.{box, calm}
use gnomock.Engine.{History, reply, background}
use gnomock.Presets.Elastic.Ingest.{await_docs-bounded}
use gnomock.Engine.Trace.{rounds}
use gnomock.Presets.Rabbitmq.{Message, url_of}
use gnomock.Engine.Actions.{value, stuck}

abbrev file_message : Message
file_message = record {
  queue = lit "a";
  content_type = lit "t";
  string_body = lit "1";
  body = none;
}

abbrev bytes_message : Message
bytes_message = record {
  queue = lit "b";
  content_type = lit "t";
  string_body = [];
  body = some (lit "2");
}

abbrev rabbit_files : Files Message
rabbit_files = record {
  opens_file = λ file. reply tt;
  closes_file = λ file. reply tt;
  decodes = λ file. value file_message ∷ [];
}

abbrev pub broker : Rabbitmq.Client
broker = record {
  dials = λ url h. reply tt;
  close_conn = reply tt;
  opens_channel = λ h. reply tt;
  declares = λ queue h. reply tt;
  publishes = λ queue content_type body h. reply tt;
  new_request = λ url. reply tt;
  do_request = λ url h. reply tt;
  ranges = λ m h. m;
  files = rabbit_files;
}

abbrev pub rabbit : Rabbitmq.P
rabbit = record {
  user = lit "u";
  password = lit "p";
  version = [];
  messages = file_message ∷ bytes_message ∷ [];
  messages_files = lit "f" ∷ [];
}

-- The preset initializes two containers, one after the other.
abbrev once : Rabbitmq.P
once = Rabbitmq.after_initf broker rabbit box []

abbrev first_run : History
first_run = (Rabbitmq.initf broker rabbit box []).1

abbrev second_run : History
second_run = (Rabbitmq.initf broker once box []).1

initf-again_example :
    (more : List Message) × AllDecoded broker.files (lit "f" ∷ []) more
    × Publish.Sent broker
        (Rabbitmq.url_of rabbit box)
        ((rabbit.messages ++ more) ++ more)
        []
        second_run
unfolding Rabbitmq.initf Rabbitmq.connect Rabbitmq.ingest_messages Rabbitmq.declare_queues
    Rabbitmq.send_each Rabbitmq.send_messages_into_queue Rabbitmq.load_files Files.load_files
    Files.load_messages_from_file Files.read_messages Rabbitmq.messages_by_queue
    Rabbitmq.after_initf Files.kept_messages text_eq lit
initf-again_example =
    initf-again broker (λ m h. Perm.refl m) rabbit box box [] first_run [] second_run refl refl

-- A directory with a file and a directory in it, beside a file.
abbrev pub store : Mongo.Client
store = record {
  new_client = λ uri. reply tt;
  connects = λ uri h. reply tt;
  pings = λ uri h. reply tt;
  read_dir = λ dir.
      if is_empty dir
      then reply ((lit "db", true) ∷ (lit "x", false) ∷ [])
      else reply ((lit "c.json", false) ∷ (lit "d", true) ∷ []);
  path_join = λ dir name. dir ++ (b'/' ∷ name);
  opens_file = λ file. reply tt;
  new_reader = λ file. reply tt;
  new_decoder = λ file. reply tt;
  decodes = λ file. value (lit "1") ∷ value (lit "2") ∷ [];
  inserts = λ db collection document h. reply tt;
}

abbrev pub mongo : Mongo.P
mongo = record { data_path = []; user = []; password = []; version = [] }

-- Two documents, which the server counts at once.
abbrev pub engine : Elastic.Client
engine = record {
  new_client = λ addr. reply tt;
  info = λ addr h. reply none;
  index = λ name bs h. reply none;
  stats = λ h. reply none;
  close_body = reply tt;
  decodes_count = λ h. reply (pos 2);
  opens_file = λ file. reply tt;
  closes_file = λ file. reply tt;
  decodes = λ file. value (lit "1") ∷ value (lit "2") ∷ [];
  marshal = λ v. reply v;
}

abbrev pub elastic : Elastic.P
elastic = record { version = []; inputs = lit "dir/f" ∷ [] }

await_docs-bounded_example :
    ((Elastic.await_docs engine calm background 4 (pos 3) []).0 ≢ stuck)
    × (rounds (Elastic.await_docs engine calm background 4 (pos 3) []).1 ≤ 4)
await_docs-bounded_example =
    await_docs-bounded calm engine background 3 (pos 3) [] (λ g le. ground arith) (omega arith)
