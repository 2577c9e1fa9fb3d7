-- ===== src/Tests/Worlds.antt =====
-- Surroundings for the tests: every call answers, and the contexts end after some rounds.
use gnomock.Base.{pos, lit, true, false, none, [], ◌∷◌, leb}
use gnomock.Engine.{World, reply, refuse}
use gnomock.Errors.{plain}
use gnomock.Ports.{NamedPorts, tcp}
use gnomock.Container.{Container}
use gnomock.Engine.Trace.{rounds}

-- Port 80/tcp is bound to 32768. The contexts end after three rounds.
abbrev pub calm : World
calm = record {
  getenv = λ name. [];
  url_hostname = λ url. none;
  host_docker_internal = false;
  port_proto = λ port. lit "tcp";
  port_int = λ port. pos 80;
  connects = λ h. reply tt;
  images = λ h. reply ((lit "web:1" ∷ lit "e/app:1" ∷ []) ∷ []);
  pulls = λ image auth h. reply tt;
  reads_pull = λ h. reply tt;
  closes_pull = λ h. reply tt;
  creates = λ request h. reply (lit "0123456789ab");
  starts = λ id h. reply tt;
  inspects = λ id h. reply (record {
    bound = (lit "80/tcp", record { host_ip = []; host_port = lit "32768" } ∷ []) ∷ [];
    gateway = lit "172.17.0.1";
  });
  lists = λ name image h. reply (lit "0123456789ab" ∷ []);
  removes = λ id h. reply tt;
  stops = λ id h. reply tt;
  logs = λ id h. reply tt;
  networks = λ name h. reply ((lit "net", lit "n1") ∷ []);
  done = λ ctx h. leb 3 (rounds h);
  closes_logs = λ id h. reply tt;
  copies_logs = λ id h. reply tt;
  gets = λ url h. reply 200;
  session = λ h. reply tt;
  eager = λ h. true;
}

abbrev pub no_logs : World
no_logs = record calm { logs = λ id h. refuse (plain []) }

abbrev pub web : NamedPorts
web = (lit "web", tcp (pos 80)) ∷ []

abbrev pub box : Container
box = record {
  id = lit "0123456789-fedcba9876";
  host = lit "127.0.0.1";
  ports = web;
  gateway = [];
  on_stop = none;
}
