-- ===== src/Starts/Documents.antt =====
-- A start of mongo and of elasticsearch with documents.
use gnomock.Engine.Actions.{ok}
use gnomock.Engine.{World, History, Context, reply, select}
use gnomock.Session.Create.{Started, start, Preset}
use gnomock.Session.Wait.{env_aware_clone}
use gnomock.Options.{Setting, build_config, with_healthcheck, with_env, with_init}
use gnomock.Container.{Container}
use gnomock.Presets.Mongo
use gnomock.Presets.Mongo.Inserts.{DirsInserted, initf-inserted}
use gnomock.Presets.Elastic
use gnomock.Presets.Elastic.Sending.{FilesIndexed}
use gnomock.Presets.Elastic.Ingest.{initf-counted, waited}
use gnomock.Base.Int.{wrap_int64}
use gnomock.Base.{
  ◌%◌, ◌^◌, ℕ, is_empty, ◌≤◌, ◌≡◌, List, none, length, false, some, arith, Text, Bool, ◌∷◌,
}
use gnomock.Starts.{KeepsInit, start-initialized}

abbrev pub mongo_preset : Mongo.Client → Preset Mongo.P
mongo_preset s = record { options = Mongo.options s; image = Mongo.image; ports = Mongo.ports }

mongo_init :
    (s : Mongo.Client) (p : Mongo.P)
    → is_empty p.data_path ≡ false
    → (build_config (Mongo.options s p).0).init ≡ Mongo.initf s (Mongo.set_defaults p)
unfolding build_config Mongo.options Mongo.set_defaults with_healthcheck with_env with_init
mongo_init s p given_path = ground arith

-- A start of mongo with a data path, whose options do not replace the initialization, and that
-- returns without an error returns a container, and its last calls, on a connection to that container as the user of the preset if it has a name and a password,
-- are: for every directory of the data path and every file of it that is no directory, one insertion
-- of every document of the file into the database with the name of the directory and the collection
-- with the name of the file without its extension.
pub start-inserted :
    (w : World) (fuel : ℕ) (s : Mongo.Client) (p : Mongo.P) (opts : List Setting) (h h' : History)
    (st : Started)
    → start w fuel (mongo_preset s) p opts h ≡ (ok st, h')
    → st.failure ≡ none
    → KeepsInit opts
    → is_empty p.data_path ≡ false
    → (c : Container) × (k : History) × (dirs : List (Text × Bool)) × (st.container ≡ some c)
      × (s.read_dir p.data_path ≡ reply dirs)
      × DirsInserted s p.data_path dirs
          (Mongo.connect_call (Mongo.uri_of (Mongo.set_defaults p) (env_aware_clone w c)) ∷ k)
          h'
unfolding Mongo.set_defaults
start-inserted w fuel s p opts h h' st e none_failed keeps given_path =
    let (c, k, there, done) =
      start-initialized w fuel (mongo_preset s) p opts (Mongo.initf s (Mongo.set_defaults p)) h h'
        st e none_failed keeps (mongo_init s p given_path) in
    let (dirs, reads, calls) =
      initf-inserted s (Mongo.set_defaults p) (env_aware_clone w c) k h' done in
    (c, k, dirs, there, reads, calls)

-- The initialization gets the context `ctx`, and `rounds` rounds to wait for the count.
abbrev pub elastic_preset : Elastic.Client → World → Context → ℕ → Preset Elastic.P
elastic_preset s w ctx rounds = record {
  options = Elastic.options s w ctx rounds;
  image = Elastic.image;
  ports = Elastic.ports;
}

elastic_init :
    (s : Elastic.Client) (w : World) (ctx : Context) (rounds : ℕ) (p : Elastic.P)
    → 1 ≤ length p.inputs
    → (build_config (Elastic.options s w ctx rounds p).0).init
      ≡ Elastic.initf s w ctx rounds (Elastic.set_defaults p)
unfolding build_config Elastic.options Elastic.set_defaults with_healthcheck with_env with_init
elastic_init s w ctx rounds p some_given = ground arith

-- A start of elasticsearch with input files, whose options do not replace the initialization, and
-- that returns without an error returns a container. Its last calls are: file by file, a look at the
-- context and one request to index each document of the file; and then rounds of a look at the
-- context and a count of the documents of the server, the last of which gave the number of the
-- indexed documents, as an `int` of 64 bits.
pub start-counted :
    (w : World) (fuel rounds : ℕ) (s : Elastic.Client) (ctx : Context) (p : Elastic.P)
    (opts : List Setting) (h h' : History) (st : Started)
    → start w fuel (elastic_preset s w ctx rounds) p opts h ≡ (ok st, h')
    → st.failure ≡ none
    → KeepsInit opts
    → 1 ≤ length p.inputs
    → (c : Container) × (k g : History) × (n m : ℕ) × (st.container ≡ some c)
      × FilesIndexed s w ctx p.inputs k g n
      × (Elastic.total_doc_count s (select ctx ∷ waited w s ctx m g)
          ≡ (ok (wrap_int64 (n % 2 ^ 64)), h'))
unfolding Elastic.set_defaults
start-counted w fuel rounds s ctx p opts h h' st e none_failed keeps some_given =
    let (c, k, there, done) =
      start-initialized w fuel (elastic_preset s w ctx rounds) p opts
        (Elastic.initf s w ctx rounds (Elastic.set_defaults p)) h h' st e none_failed keeps
        (elastic_init s w ctx rounds p some_given) in
    let (n, m, g, files, last) =
      initf-counted w s ctx rounds (Elastic.set_defaults p) (env_aware_clone w c) k h' done in
    (c, k, g, n, m, there, files, last)
