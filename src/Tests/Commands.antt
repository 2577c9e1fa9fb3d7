-- ===== src/Tests/Commands.antt =====
-- Witnesses for the commands under cmd/.
use gnomock.Base.{
  some, ◌≡◌, [], ◌∷◌, lit, contains, pos, has_prefix, true, refl, lower_byte, ◌⊎◌, text_eq,
}
use gnomock.Generator
use gnomock.Generator.{PresetParams, write_call, to_lower}
use gnomock.Generator.Insertion.{
  replace_placeholder-inserted, replace_placeholder-absent, Written, NoBlock,
}
use gnomock.Engine.Actions.{Result}
use gnomock.Server
use gnomock.Server.{Clients}
use gnomock.Registry
use gnomock.Registry.{AnyPreset, register}
use gnomock.Base.Assoc.{insert, lookup}
use gnomock.Tests.Presets.{aws, silent_sql, broker as kafka_broker}
use gnomock.Tests.Splunk.{collector}
use gnomock.Tests.Messages.{broker, store, engine}
use gnomock.Tests.Worlds.{calm}
use gnomock.Engine.{reply, History, background}
use gnomock.Base.Replace.{replace_all}
use gnomock.Generator.Names.{title, snake, title_after, split_words, upper_byte, split_capitals}

abbrev new_preset : PresetParams
new_preset = record { name = lit "N"; default_port = pos 80; image = lit "n"; public = true }

-- The file is `a#z`, the placeholder is `#`, and the template gives `b#`.
abbrev files : Generator.Client
files = record {
  path_join = λ parts. [];
  makes_dir = λ dir h. reply tt;
  creates = λ file h. reply tt;
  read_file = λ file h. reply (b'a' ∷ b'#' ∷ b'z' ∷ []);
  writes = λ file text h. reply tt;
  parses = λ name file. reply tt;
  renders = λ file params. reply (b'b' ∷ b'#' ∷ []);
  version_json = [];
}

abbrev inserted_run : History
inserted_run = (Generator.replace_placeholder files (lit "f") (lit "t") (b'#' ∷ []) new_preset []).1

replace_placeholder-inserted_example :
    inserted_run ≡ write_call (lit "f") (b'a' ∷ b'b' ∷ b'#' ∷ b'z' ∷ []) ∷ []
unfolding Generator.replace_placeholder Generator.write replace_all contains has_prefix
replace_placeholder-inserted_example =
    replace_placeholder-inserted files (lit "f") (lit "t") b'#' [] (b'a' ∷ []) (b'z' ∷ [])
      (b'b' ∷ []) new_preset [] inserted_run refl refl refl (refl, tt) refl

abbrev absent_run : Result (Unit {0}) × History
absent_run = Generator.replace_placeholder files (lit "f") (lit "t") (b'!' ∷ []) new_preset []

replace_placeholder-absent_example :
    Written files (lit "f") (b'a' ∷ b'#' ∷ b'z' ∷ []) [] absent_run
    ⊎ NoBlock files (lit "t") new_preset [] absent_run
unfolding contains has_prefix
replace_placeholder-absent_example =
    replace_placeholder-absent files (lit "f") (lit "t") (b'!' ∷ []) (b'a' ∷ b'#' ∷ b'z' ∷ [])
      new_preset [] refl refl

abbrev clients : Clients
clients = record {
  world = calm;
  fuel = 4;
  init_context = background;
  cassandra = record { creates_session = λ addr user password h. reply tt };
  cockroachdb = silent_sql;
  elastic = engine;
  influxdb = record {
    health = λ addr token h. reply (lit "pass");
    buckets = λ addr token org h. reply 1;
  };
  k3s = record {
    new_request = λ url. reply tt;
    do_request = λ url h. reply (pos 200);
    read_body = λ h. reply [];
    close_body = reply tt;
    parses = λ text. reply ([], text);
    new_for_config = λ host config. reply tt;
    nodes = λ host h. reply 1;
    service_accounts = λ host h. reply 1;
  };
  kafka = kafka_broker;
  localstack = aws;
  mariadb = silent_sql;
  memcached = record { sets = λ addr k v h. reply tt; pings = λ addr h. reply tt };
  mongo = store;
  mssql = silent_sql;
  mysql = silent_sql;
  postgres = silent_sql;
  rabbitmq = broker;
  redis = record { sets = λ addr k v h. reply tt; pings = λ addr h. reply tt };
  splunk = collector;
}

-- After all packages are initialized.
found_redis :
    Registry.find (Server.registered clients) (lit "redis") ≡ some (Server.redis_preset clients)
unfolding Server.registered Registry.find register insert lookup text_eq lit
found_redis = refl

found_kubernetes :
    Registry.find (Server.registered clients) (lit "kubernetes") ≡ some (Server.k3s_preset clients)
unfolding Server.registered Registry.find register insert lookup text_eq lit
found_kubernetes = refl

snake_of_caps : snake (lit "MySQLServer") ≡ lit "my_sql_server"
unfolding snake split_words split_capitals to_lower lower_byte lit
snake_of_caps = refl

title_of_words : title (lit "mY sql-server") ≡ lit "My Sql-Server"
unfolding title title_after upper_byte to_lower lower_byte lit
title_of_words = refl
