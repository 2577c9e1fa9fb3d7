-- ===== src/Presets/Mongo.antt =====
-- preset/mongo/preset.go and options.go.
pub mod Collections
pub mod Inserts
use gnomock.Base.{
  Text, none, some, lit, if◌then◌else◌, [], List, Bool, ◌∷◌, ◌++◌, not, is_empty, ◌&&◌, true, pos,
  false,
}
use gnomock.Engine.Actions.{◌>>=◌, ◌>>◌, value, failed, M, wrapping, pure, Tried, given, fail, ask}
use gnomock.Ports.{default_tcp, NamedPorts, default_port}
use gnomock.Engine.{reply, refuse, Reply, Call, client_call, History}
use gnomock.Container.{Container, address}
use gnomock.Base.FilePaths.{path_ext, trim_suffix}
use gnomock.Options.{Setting, with_healthcheck, with_init, with_env}
use gnomock.Errors.{wrap, wrap_comma}

pub record P : Type 0 where
  pub data_path : Text
  pub user : Text
  pub password : Text
  pub version : Text

-- The answers of the mongo driver and of the file system. The files do not change.
pub record Client : Type 0 where
  pub new_client : Text → Reply (Unit {0})
  pub connects : Text → History → Reply (Unit {0})
  pub pings : Text → History → Reply (Unit {0})
  -- os.ReadDir: the names, and whether they are directories
  pub read_dir : Text → Reply (List (Text × Bool))
  pub path_join : Text → Text → Text
  pub opens_file : Text → Reply (Unit {0})
  -- bsonrw.NewExtJSONValueReader and bson.NewDecoder
  pub new_reader : Text → Reply (Unit {0})
  pub new_decoder : Text → Reply (Unit {0})
  -- what the decoder gives, call after call, before io.EOF: documents, as texts
  pub decodes : Text → List (Tried Text)
  pub inserts : Text → Text → Text → History → Reply (Unit {0})

-- type Option func(*P)
abbrev pub MongoOption : Type 0
MongoOption = P → P

unfoldable pub with_data : Text → MongoOption
with_data path p = record p { data_path = path }

unfoldable pub with_user : Text → Text → MongoOption
with_user user pass p = record p { user = user; password = pass }

unfoldable pub with_version : Text → MongoOption
with_version version p = record p { version = version }

abbrev pub default_version : Text
default_version = lit "4.4"

abbrev pub empty_preset : P
empty_preset = record { data_path = []; user = []; password = []; version = [] }

abbrev apply_options : List MongoOption → P → P
apply_options [] p = p
apply_options (opt ∷ opts) p = apply_options opts (opt p)

unfoldable pub preset : List MongoOption → P
preset opts = apply_options opts empty_preset

unfoldable pub image : P → Text
image p = lit "docker.io/library/mongo:" ++ p.version

unfoldable pub ports : P → NamedPorts
unfolding default_tcp
ports p = default_tcp (pos 27017)

unfoldable pub set_defaults : P → P
set_defaults p = record p { version = if is_empty p.version then default_version else p.version }

unfoldable pub use_custom_user : P → Bool
use_custom_user p = not (is_empty p.user) && not (is_empty p.password)

unfoldable pub uri_of : P → Container → Text
uri_of p c =
    let addr = address c default_port in
    if use_custom_user p
    then lit "mongodb://" ++ (p.user ++ (b':' ∷ (p.password ++ (b'@' ∷ addr))))
    else lit "mongodb://" ++ addr

-- The name of the file without its extension.
unfoldable pub collection_name : Text → Text
unfolding path_ext trim_suffix
collection_name file = trim_suffix file (path_ext file)

unfoldable pub connect_call : Text → Call
connect_call uri = client_call (lit "mongo.Connect") (uri ∷ [])

unfoldable pub insert_call : Text → Text → Text → Call
insert_call db collection document =
    client_call (lit "mongo.InsertOne") (db ∷ collection ∷ document ∷ [])

module _ (s : Client) where
  unfoldable pub connect : Text → M (Unit {0})
  connect uri = do
    wrapping (lit "can't create mongo client") (given (s.new_client uri))
    wrapping (lit "can't connect") (ask (connect_call uri) (s.connects uri))

  unfoldable pub healthcheck : Container → M (Unit {0})
  healthcheck c = do
    let uri = lit "mongodb://" ++ address c default_port
    connect uri
    ask (client_call (lit "mongo.Ping") (uri ∷ [])) (s.pings uri)

  -- The loop of setupCollection.
  unfoldable pub insert_each : Text → Text → List (Tried Text) → M (Unit {0})
  insert_each db file [] = pure tt
  insert_each db file (failed e ∷ rest) =
      fail (wrap (lit "can't decode file '" ++ (file ++ lit "'")) e)
  insert_each db file (value document ∷ rest) =
      wrapping (lit "can't insert value from '" ++ (file ++ (lit "' (" ++ (document ++ lit ")")))) (
        ask (insert_call db (collection_name file) document)
          (s.inserts db (collection_name file) document))
      >> insert_each db file rest

  -- The file is not closed.
  unfoldable pub setup_collection : Text → Text → Text → M (Unit {0})
  setup_collection data_path dir file = do
    let path = s.path_join (s.path_join data_path dir) file
    wrapping (lit "can't open file '" ++ (file ++ lit "'")) (given (s.opens_file path))
    wrapping (lit "can't read file '" ++ (file ++ lit "'")) (given (s.new_reader path))
    wrapping (lit "can't create BSON decoder for '" ++ (file ++ lit "'"))
        (given (s.new_decoder path))
    insert_each dir file (s.decodes path)

  -- The loop of setupDB.
  unfoldable pub setup_collections : Text → Text → List (Text × Bool) → M (Unit {0})
  setup_collections data_path dir [] = pure tt
  setup_collections data_path dir ((name, true) ∷ files) = setup_collections data_path dir files
  setup_collections data_path dir ((name, false) ∷ files) =
      wrapping (lit "can't setup collection from file '" ++ (name ++ lit "'"))
        (setup_collection data_path dir name)
      >> setup_collections data_path dir files

  unfoldable pub read_sub_path : Text → Text → Reply (List (Text × Bool))
  read_sub_path data_path dir = elim (s.read_dir (s.path_join data_path dir)) [
    | reply files ↦ reply files
    | refuse e ↦ refuse (wrap_comma (lit "can't read test data sub path '" ++ (dir ++ lit "'")) e)
  ]

  unfoldable pub setup_db : Text → Text → M (Unit {0})
  setup_db data_path dir = do
    files ← given (read_sub_path data_path dir)
    setup_collections data_path dir files

  -- The loop of initf.
  unfoldable pub setup_dbs : Text → List (Text × Bool) → M (Unit {0})
  setup_dbs data_path [] = pure tt
  setup_dbs data_path ((name, false) ∷ dirs) = setup_dbs data_path dirs
  setup_dbs data_path ((name, true) ∷ dirs) = setup_db data_path name >> setup_dbs data_path dirs

  unfoldable pub initf : P → Container → M (Unit {0})
  initf p c = do
    connect (uri_of p c)
    dirs ← wrapping (lit "can't read test data path") (given (s.read_dir p.data_path))
    setup_dbs p.data_path dirs

  unfoldable pub options : P → List Setting × P
  options p =
      let p' = set_defaults p in
      (
        (with_healthcheck healthcheck ∷ [])
            ++ ((if is_empty p'.data_path then [] else with_init (initf p') ∷ [])
                ++ (if use_custom_user p'
                    then with_env (lit "MONGO_INITDB_ROOT_USERNAME=" ++ p'.user)
                      ∷ with_env (lit "MONGO_INITDB_ROOT_PASSWORD=" ++ p'.password)
                      ∷ []
                    else [])),
        p',
      )
