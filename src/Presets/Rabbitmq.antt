-- ===== src/Presets/Rabbitmq.antt =====
-- preset/rabbitmq/preset.go and options.go.
pub mod Calls
pub mod Publish
use gnomock.Base.{
  Text, none, some, ◌++◌, lit, is_empty, contains, [], Option, List, ◌∷◌, ◌&&◌, Bool, map,
  if◌then◌else◌, not, pos, ltb, length, ◌+◌,
}
use gnomock.Engine.Actions.{◌>>=◌, ◌>>◌, M, wrapping, pure, ask, given, closing, kept_if, look}
use gnomock.Presets.Files
use gnomock.Presets.Files.{Files, kept_messages}
use gnomock.Ports.{default_tcp, tcp, NamedPorts}
use gnomock.Engine.{History, Call, client_call, Reply, http_get}
use gnomock.Container.{Container, address, default_port_of}
use gnomock.Base.Groups.{group_by}
use gnomock.Base.Assoc.{Assoc, insert}
use gnomock.Options.{Setting, with_healthcheck, with_env, with_init}
use gnomock.Base.Decimal.{itoa}

-- `body` is none for a nil slice.
pub record Message : Type 0 where
  pub queue : Text
  pub content_type : Text
  pub string_body : Text
  pub body : Option Text

pub record P : Type 0 where
  pub user : Text
  pub password : Text
  pub version : Text
  pub messages : List Message
  pub messages_files : List Text

-- The answers of the amqp client, of net/http and of the file system.
pub record Client : Type 0 where
  pub dials : Text → History → Reply (Unit {0})
  pub close_conn : Reply (Unit {0})
  pub opens_channel : History → Reply (Unit {0})
  pub declares : Text → History → Reply (Unit {0})
  -- queue, content type and body
  pub publishes : Text → Text → Text → History → Reply (Unit {0})
  pub new_request : Text → Reply (Unit {0})
  pub do_request : Text → History → Reply (Unit {0})
  -- the order in which a loop meets the entries of messagesByQueue: each loop has one of its own
  pub ranges : Assoc (List Message) → History → Assoc (List Message)
  pub files : Files Message

-- type Option func(*P)
abbrev pub RabbitmqOption : Type 0
RabbitmqOption = P → P

unfoldable pub with_user : Text → Text → RabbitmqOption
with_user user password p = record p { user = user; password = password }

unfoldable pub with_version : Text → RabbitmqOption
with_version version p = record p { version = version }

unfoldable pub with_messages : List Message → RabbitmqOption
with_messages messages p = record p { messages = p.messages ++ messages }

unfoldable pub with_messages_file : Text → RabbitmqOption
with_messages_file file p = record p { messages_files = p.messages_files ++ file ∷ [] }

-- ManagementPort
abbrev pub management_port_name : Text
management_port_name = lit "management"

abbrev pub default_user : Text
default_user = lit "guest"

abbrev pub default_password : Text
default_password = lit "guest"

abbrev pub default_version : Text
default_version = lit "3.8.9"

abbrev pub empty_preset : P
empty_preset = record { user = []; password = []; version = []; messages = []; messages_files = [] }

abbrev apply_options : List RabbitmqOption → P → P
apply_options [] p = p
apply_options (opt ∷ opts) p = apply_options opts (opt p)

unfoldable pub preset : List RabbitmqOption → P
preset opts = apply_options opts empty_preset

unfoldable pub image : P → Text
image p = lit "docker.io/library/rabbitmq:" ++ p.version

unfoldable pub is_management : P → Bool
unfolding contains lit
is_management p = contains p.version (lit "management")

unfoldable pub ports : P → NamedPorts
unfolding default_tcp tcp insert
ports p =
    if is_management p
    then insert management_port_name (tcp (pos 15672)) (default_tcp (pos 5672))
    else default_tcp (pos 5672)

unfoldable pub set_defaults : P → P
set_defaults p =
    let no_user = is_empty p.user && is_empty p.password in
    record p {
      version = if is_empty p.version then default_version else p.version;
      user = if no_user then default_user else p.user;
      password = if no_user then default_password else p.password;
    }

unfoldable pub dial_call : Text → Call
dial_call url = client_call (lit "amqp.Dial") (url ∷ [])

unfoldable pub channel_call : Call
channel_call = client_call (lit "amqp.Channel") []

unfoldable pub declare_call : Text → Call
declare_call queue = client_call (lit "amqp.QueueDeclare") (queue ∷ [])

unfoldable pub publish_call : Text → Text → Text → Call
publish_call queue content_type body =
    client_call (lit "amqp.Publish") (queue ∷ content_type ∷ body ∷ [])

unfoldable pub url_of : P → Container → Text
url_of p c =
    lit "amqp://"
    ++ (p.user ++ (b':' ∷ (p.password ++ (b'@' ∷ (c.host ++ (b':' ∷ itoa (default_port_of c)))))))

-- The body, or the text if there is none.
unfoldable pub body_of : Message → Text
body_of m = elim m.body [ none ↦ m.string_body | some body ↦ body ]

unfoldable pub messages_by_queue : List Message → Assoc (List Message)
unfolding group_by
messages_by_queue messages = group_by (λ m. m.queue) messages

module _ (s : Client) where
  unfoldable pub connect : P → Container → M (Unit {0})
  connect p c = ask (dial_call (url_of p c)) (s.dials (url_of p c))

  unfoldable pub check_management : Container → M (Unit {0})
  check_management c = do
    let url = lit "http://" ++ (address c management_port_name ++ lit "/api/overview")
    given (s.new_request url)
    ask (http_get url) (s.do_request url)

  unfoldable pub healthcheck : P → Container → M (Unit {0})
  healthcheck p c = do
    wrapping (lit "connection failed") (connect p c)
    wrapping (lit "can't close connection") (given s.close_conn)
    if is_management p then check_management c else pure tt

  unfoldable pub declare_queues : List Text → M (Unit {0})
  declare_queues [] = pure tt
  declare_queues (queue ∷ queues) =
      wrapping (lit "can't open queue '" ++ (queue ++ lit "'"))
        (ask (declare_call queue) (s.declares queue))
      >> declare_queues queues

  unfoldable pub send_messages_into_queue : Text → List Message → M (Unit {0})
  send_messages_into_queue queue [] = pure tt
  send_messages_into_queue queue (m ∷ messages) =
      wrapping (lit "publish message failed") (
        ask (publish_call queue m.content_type (body_of m))
          (s.publishes queue m.content_type (body_of m)))
      >> send_messages_into_queue queue messages

  unfoldable pub send_each : Assoc (List Message) → M (Unit {0})
  send_each [] = pure tt
  send_each ((queue, messages) ∷ rest) =
      wrapping (lit "can't send messages into queue '" ++ (queue ++ lit "'"))
        (send_messages_into_queue queue messages)
      >> send_each rest

  unfoldable pub load_files : P → M (List Message)
  load_files p = Files.load_files s.files p.messages_files p.messages

  -- The deferred function assigns the error of Close to a variable that is no result.
  unfoldable pub ingest_messages : P → M (Unit {0})
  ingest_messages p = do
    messages ← load_files p
    let by_queue = messages_by_queue messages
    wrapping (lit "can't open channel") (ask channel_call s.opens_channel)
    keys ← look (s.ranges by_queue)
    declare_queues (map (λ e. e.0) keys)
    entries ← look (s.ranges by_queue)
    send_each entries

  unfoldable pub initf : P → Container → M (Unit {0})
  initf p c = do
    wrapping (lit "can't connect to rabbitmq") (connect p c)
    closing s.close_conn (ingest_messages p)

  -- The preset after initf, which adds the messages of the files to its own.
  unfoldable pub after_initf : P → Container → History → P
  after_initf p c h =
      kept_if (connect p c h).0
        (λ u. record p { messages = kept_messages s.files p.messages_files p.messages }) p

  unfoldable pub options : P → List Setting × P
  options p =
      let p' = set_defaults p in
      (
        (with_healthcheck (healthcheck p') ∷ [])
            ++ ((if not (is_empty p'.user) && not (is_empty p'.password)
                  then with_env (lit "RABBITMQ_DEFAULT_USER=" ++ p'.user)
                    ∷ with_env (lit "RABBITMQ_DEFAULT_PASS=" ++ p'.password)
                    ∷ []
                  else [])
                ++ (if ltb 0 (length p'.messages + length p'.messages_files)
                    then with_init (initf p') ∷ []
                    else [])),
        p',
      )
