-- ===== src/Presets/Elastic.antt =====
-- preset/elastic/preset.go and options.go.
pub mod Sending
pub mod Ingest
use gnomock.Engine.Actions.{
  ◌>>=◌, ◌>>◌, value, failed, M, Tried, pure, fail, hang, given, ask, closing, wrapping,
}
use gnomock.Engine.{World, Context, Reply, reply, refuse, History, Call, client_call}
use gnomock.Ports.{default_tcp, NamedPorts}
use gnomock.Container.{Container, default_address}
use gnomock.Base.{
  ℤ, ℕ, lit, if◌then◌else◌, [], Text, List, ◌∷◌, ◌++◌, suc, is_empty, Option, ◌+◌, some, pos, ◌%◌,
  ◌^◌, none, ltb, zero, length,
}
use gnomock.Options.{Setting, with_env, with_healthcheck, with_init}
use gnomock.Errors.{wrap, plain, canceled}
use gnomock.Base.Int.{wrap_int64, int_eq}
use gnomock.Docker.Client.{select_done}
use gnomock.Base.FilePaths.{path_base}

pub record P : Type 0 where
  pub version : Text
  pub inputs : List Text

-- The answers of the elasticsearch client, of encoding/json and of the file system. The files do not
-- change.
pub record Client : Type 0 where
  pub new_client : Text → Reply (Unit {0})
  -- Info, Index and Indices.Stats: with the text of the response, if it is an error
  pub info : Text → History → Reply (Option Text)
  pub index : Text → Text → History → Reply (Option Text)
  pub stats : History → Reply (Option Text)
  pub close_body : Reply (Unit {0})
  -- what the decoder gives for the body of Indices.Stats: _all.total.docs.count
  pub decodes_count : History → Reply ℤ
  pub opens_file : Text → Reply (Unit {0})
  pub closes_file : Text → Reply (Unit {0})
  -- what the decoder gives, call after call, before io.EOF
  pub decodes : Text → List (Tried Text)
  -- json.Marshal
  pub marshal : Text → Reply Text

-- type Option func(*P)
abbrev pub ElasticOption : Type 0
ElasticOption = P → P

unfoldable pub with_version : Text → ElasticOption
with_version version p = record p { version = version }

unfoldable pub with_input_file : Text → ElasticOption
with_input_file file p = record p { inputs = p.inputs ++ file ∷ [] }

abbrev pub default_version : Text
default_version = lit "7.9.3"

abbrev pub empty_preset : P
empty_preset = record { version = []; inputs = [] }

abbrev apply_options : List ElasticOption → P → P
apply_options [] p = p
apply_options (opt ∷ opts) p = apply_options opts (opt p)

unfoldable pub preset : List ElasticOption → P
preset opts = apply_options opts empty_preset

unfoldable pub image : P → Text
image p = lit "docker.io/library/elasticsearch:" ++ p.version

unfoldable pub ports : P → NamedPorts
unfolding default_tcp
ports p = default_tcp (pos 9200)

unfoldable pub set_defaults : P → P
set_defaults p = record p { version = if is_empty p.version then default_version else p.version }

unfoldable pub info_call : Text → Call
info_call addr = client_call (lit "elastic.Info") (addr ∷ [])

unfoldable pub index_call : Text → Text → Call
index_call index bs = client_call (lit "elastic.Index") (index ∷ bs ∷ [])

unfoldable pub stats_call : Call
stats_call = client_call (lit "elastic.Indices.Stats") []

abbrev pub default_addr : Container → Text
default_addr c = lit "http://" ++ default_address c

module _ (s : Client) where
  unfoldable pub connect : Container → M (Unit {0})
  connect c =
      wrapping (lit "can't create elasticsearch client") (given (s.new_client (default_addr c)))

  -- What follows a request: the body is closed, and an error response is an error.
  unfoldable pub unless_error : {A : Type 0} → Text → M A → Option Text → M A
  unless_error prefix k (some text) =
      closing s.close_body (fail (plain (prefix ++ (lit ": " ++ text))))
  unless_error prefix k none = closing s.close_body k

  unfoldable pub healthcheck : Container → M (Unit {0})
  healthcheck c = do
    connect c
    response ←
        wrapping (lit "can't get cluster info")
          (ask (info_call (default_addr c)) (s.info (default_addr c)))
    unless_error (lit "cluster info failed") (pure tt) response

  unfoldable pub ingest_data : Text → Text → M (Unit {0})
  ingest_data index bs = do
    response ←
        wrapping (lit "failed to index file '" ++ (index ++ lit "'"))
          (ask (index_call index bs) (s.index index bs))
    unless_error (lit "indexing of '" ++ (index ++ lit "' failed")) (pure tt) response

  -- The loop of ingestFile over the documents, from the count so far. A count is kept as the 64 bits
  -- of its `int`.
  unfoldable pub ingest_docs : Text → List (Tried Text) → ℕ → M ℕ
  ingest_docs index [] count = pure count
  ingest_docs index (failed e ∷ rest) count = fail (wrap (lit "can't decode json data") e)
  ingest_docs index (value v ∷ rest) count = do
    bs ← given (s.marshal v)
    wrapping (lit "failed to ingest data") (ingest_data index bs)
    ingest_docs index rest ((count + 1) % 2 ^ 64)

  unfoldable pub ingest_file : Text → M ℕ
  ingest_file file = do
    wrapping (lit "can't open file '" ++ (file ++ lit "'")) (given (s.opens_file file))
    closing (s.closes_file file) (ingest_docs (path_base file) (s.decodes file) 0)

  unfoldable pub total_doc_count : M ℤ
  total_doc_count = do
    response ← wrapping (lit "failed to get index status") (ask stats_call s.stats)
    unless_error (lit "invalid response for index status")
        (wrapping (lit "invalid output for index stats") (λ h. given (s.decodes_count h) h))
        response

  module _ (w : World) (ctx : Context) where
    -- The loop of ingestSeedFiles.
    unfoldable pub ingest_seed_files : List Text → ℕ → M ℕ
    ingest_seed_files [] count = pure count
    ingest_seed_files (file ∷ files) count = do
      over ← select_done w ctx
      if over then fail canceled else do
        n ← wrapping (lit "can't ingest file '" ++ (file ++ lit "'")) (ingest_file file)
        ingest_seed_files files ((count + n) % 2 ^ 64)

    -- The loop of initf: it waits until all documents are counted.
    unfoldable pub await_docs : ℕ → ℤ → M (Unit {0})
    await_docs zero expected = hang
    await_docs (suc fuel) expected = do
      over ← select_done w ctx
      if over then fail canceled else do
        total ← wrapping (lit "can't count docs") total_doc_count
        if int_eq total expected then pure tt else await_docs fuel expected

    unfoldable pub initf : ℕ → P → Container → M (Unit {0})
    initf fuel p c = do
      connect c
      count ← wrapping (lit "seed file ingestion failed") (ingest_seed_files p.inputs 0)
      await_docs fuel (wrap_int64 count)

    unfoldable pub options : ℕ → P → List Setting × P
    options fuel p =
        let p' = set_defaults p in
        (
          with_env (lit "discovery.type=single-node")
              ∷ with_env (lit "ES_JAVA_OPTS=-Xms256m -Xmx256m")
              ∷ with_healthcheck healthcheck
              ∷ (if ltb 0 (length p'.inputs) then with_init (initf fuel p') ∷ [] else []),
          p',
        )
