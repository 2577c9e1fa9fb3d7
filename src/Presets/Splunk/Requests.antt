-- ===== src/Presets/Splunk/Requests.antt =====
-- preset/splunk/init.go: events and requestWithAuth, and what they call.
use gnomock.Base.{Text, ℤ, lit, Bool, true, if◌then◌else◌, false, List, ◌++◌, Option, ◌∷◌, pos, []}
use gnomock.Engine.Actions.{◌>>=◌, ◌>>◌, M, wrapping, given, ask, Tried, fail, closing, pure}
use gnomock.Errors.{GoError, wrap, conflict, plain}
use gnomock.Engine.{Reply, reply, History, Call, refuse, client_call}
use gnomock.Base.Int.{int_eq, ltb_ℤ}

pub record Event : Type 0 where
  pub event : Text
  pub index : Text
  pub source : Text
  pub source_type : Text
  pub time : ℤ

-- The answers of net/http, of the clock, of the coding of JSON and forms, and of the file system.
pub record Client : Type 0 where
  pub new_request : Text → Reply (Unit {0})
  -- the code and the text of the status
  pub do_request : Text → Text → Text → History → Reply (ℤ × Text)
  pub read_body : History → Reply Text
  pub close_body : Reply (Unit {0})
  pub encode : List (Text × Text) → Text
  -- fmt.Sprintf("gnomock-%d", time.Now().UnixNano())
  pub token_name : History → Text
  -- the tokens of the entries
  pub tokens : Text → Reply (List Text)
  pub counts : Text → Reply (Option Text)
  pub marshal : Event → Reply Text
  pub opens_file : Text → Reply (Unit {0})
  -- what the decoder gives, call after call, before io.EOF
  pub decodes : Text → List (Tried Event)

abbrev pub is_conflict : GoError → Bool
is_conflict conflict = true
is_conflict _ = false

unfoldable pub content_type : Bool → Text
content_type true = lit "application/json"
content_type false = lit "application/x-www-form-urlencoded"

-- A request of the user admin.
unfoldable pub request_call : Text → Text → Bool → Text → Text → Call
request_call method password is_json uri body =
    client_call (lit "http." ++ method) (password ∷ content_type is_json ∷ uri ∷ body ∷ [])

-- What is made of the status and the body.
unfoldable pub by_status : ℤ → Text → Text → M Text
by_status code status bs =
    if int_eq code (pos 409)
    then fail conflict
    else if ltb_ℤ code (pos 400)
    then pure bs
    else fail (plain (status ++ (lit ": " ++ bs)))

abbrev close_prefix : Text
close_prefix = lit "can't close response body"

-- The deferred function wraps the error of Close.
unfoldable pub closed : Reply (Unit {0}) → Reply (Unit {0})
closed (reply u) = reply u
closed (refuse e) = refuse (wrap close_prefix e)

module _ (s : Client) where
  -- io.ReadAll
  abbrev pub read_all : M Text
  read_all h = given (s.read_body h) h

  -- What follows client.Do.
  unfoldable pub read_response : ℤ × Text → M Text
  read_response (code, status) =
      closing (closed s.close_body)
        (do bs ← wrapping (lit "can't read response body") read_all; by_status code status bs)

  -- The function that requestWithAuth returns.
  unfoldable pub insecure_request : Text → Text → Bool → Text → Text → M Text
  insecure_request method password is_json uri body = do
    wrapping (lit "can't create request") (given (s.new_request uri))
    response ←
        wrapping (lit "request failed")
          (ask (request_call method password is_json uri body) (s.do_request method uri body))
    read_response response
