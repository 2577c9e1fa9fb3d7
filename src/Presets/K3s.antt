-- ===== src/Presets/K3s.antt =====
-- preset/k3s/preset.go and options.go.
pub mod Health
use gnomock.Engine.Actions.{◌>>=◌, ◌>>◌, M, ask, wrapping, pure, given, fail, closing}
use gnomock.Ports.{tcp, NamedPorts, default_port}
use gnomock.Container.{Container, default_address, address}
use gnomock.Base.Int.{int_eq}
use gnomock.Base.{ℤ, [], Text, List, ◌∷◌, ℕ, pos, lit, if◌then◌else◌, ◌==◌, ◌++◌, is_empty}
use gnomock.Options.{Setting, with_healthcheck, with_privileged, with_env}
use gnomock.Engine.{Reply, Call, http_get, client_call, History}
use gnomock.Base.Assoc.{insert}
use gnomock.Errors.{plain}
use gnomock.Base.Decimal.{itoa}

pub record P : Type 0 where
  pub version : Text
  pub port : ℤ

-- The answers of net/http and of the kubernetes client. A configuration is a text, its host apart.
pub record Client : Type 0 where
  pub new_request : Text → Reply (Unit {0})
  -- the status code
  pub do_request : Text → History → Reply ℤ
  pub read_body : History → Reply Text
  pub close_body : Reply (Unit {0})
  -- clientcmd.RESTConfigFromKubeConfig: the host and the rest
  pub parses : Text → Reply (Text × Text)
  pub new_for_config : Text → Text → Reply (Unit {0})
  -- the numbers of nodes and of service accounts of the default namespace, for a host
  pub nodes : Text → History → Reply ℕ
  pub service_accounts : Text → History → Reply ℕ

-- type Option func(*P)
abbrev pub K3sOption : Type 0
K3sOption = P → P

unfoldable pub with_version : Text → K3sOption
with_version version p = record p { version = version }

unfoldable pub with_port : ℤ → K3sOption
with_port port p = record p { port = port }

abbrev pub default_version : Text
default_version = lit "latest"

abbrev pub default_hostname : Text
default_hostname = lit "localhost"

-- defaultPort
abbrev pub api_port : ℤ
api_port = pos 48443

-- KubeconfigPort
abbrev pub kubeconfig_port_name : Text
kubeconfig_port_name = lit "kubeconfig"

abbrev pub kubeconfig_port : ℤ
kubeconfig_port = pos 80

abbrev pub empty_preset : P
empty_preset = record { version = []; port = pos 0 }

abbrev apply_options : List K3sOption → P → P
apply_options [] p = p
apply_options (opt ∷ opts) p = apply_options opts (opt p)

unfoldable pub preset : List K3sOption → P
preset opts = apply_options opts empty_preset

unfoldable pub image : P → Text
image p = lit "docker.io/orlangure/k3s:" ++ p.version

unfoldable pub ports : P → NamedPorts
unfolding tcp insert
ports p =
    (default_port, record (tcp p.port) { host_port = p.port })
    ∷ (kubeconfig_port_name, tcp kubeconfig_port)
    ∷ []

unfoldable pub set_defaults : P → P
unfolding int_eq
set_defaults p = record p {
  version = if is_empty p.version then default_version else p.version;
  port = if int_eq p.port (pos 0) then api_port else p.port;
}

unfoldable pub kubeconfig_url : Container → Text
kubeconfig_url c = lit "http://" ++ (address c kubeconfig_port_name ++ lit "/kubeconfig")

unfoldable pub nodes_call : Text → Call
nodes_call host = client_call (lit "k3s.Nodes.List") (host ∷ [])

unfoldable pub service_accounts_call : Text → Call
service_accounts_call host = client_call (lit "k3s.ServiceAccounts.List") (host ∷ [])

module _ (s : Client) where
  -- What follows the request: the status is looked at and the body is read.
  unfoldable pub read_config : ℤ → M Text
  read_config code =
      if int_eq code (pos 200)
      then wrapping (lit "can't read kubeconfig body") (λ h. given (s.read_body h) h)
      else fail (plain (lit "invalid kubeconfig response code '" ++ (itoa code ++ lit "'")))

  unfoldable pub config_bytes : Container → M Text
  config_bytes c = do
    let url = kubeconfig_url c
    wrapping (lit "kubeconfig unavailable") (given (s.new_request url))
    code ← wrapping (lit "kubeconfig unavailable") (ask (http_get url) (s.do_request url))
    closing s.close_body (read_config code)

  unfoldable pub config : Container → M (Text × Text)
  config c = do
    bytes ← wrapping (lit "can't get kubeconfig bytes") (config_bytes c)
    wrapping (lit "can't create kubeconfig from bytes") (given (s.parses bytes))

  -- The check of a list that must not be empty.
  unfoldable pub some_of : Text → ℕ → M (Unit {0})
  some_of message n = if n == 0 then fail (plain message) else pure tt

  -- The host of the configuration is replaced.
  unfoldable pub check_cluster : Text → Text × Text → M (Unit {0})
  check_cluster host (old, kubeconfig) = do
    wrapping (lit "failed to create kubernetes client from kubeconfig")
        (given (s.new_for_config host kubeconfig))
    n ← wrapping (lit "failed to list cluster nodes") (ask (nodes_call host) (s.nodes host))
    some_of (lit "no nodes found in cluster") n
    m ←
        wrapping (lit "failed to list service accounts")
          (ask (service_accounts_call host) (s.service_accounts host))
    some_of (lit "no service accounts found in cluster") m

  unfoldable pub healthcheck : Container → M (Unit {0})
  healthcheck c = do
    kubeconfig ← wrapping (lit "failed to get kubeconfig") (config c)
    check_cluster (default_address c) kubeconfig

  unfoldable pub options : P → List Setting × P
  options p =
      let p' = set_defaults p in
      (
        with_healthcheck healthcheck
            ∷ with_privileged
            ∷ with_env (lit "K3S_API_HOST=" ++ default_hostname)
            ∷ with_env (lit "K3S_API_PORT=" ++ itoa p'.port)
            ∷ [],
        p',
      )
