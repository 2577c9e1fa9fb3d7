-- ===== src/Presets/Splunk/Collector.antt =====
-- preset/splunk/init.go: Ingest, with its token, its indexes and its counts.
use gnomock.Base.{
  Text, none, some, lit, if◌then◌else◌, Option, ◌++◌, List, ℤ, ℕ, pos, [], ◌∷◌, true, false, any,
  text_eq, suc, length, zero,
}
use gnomock.Engine.Actions.{
  ◌>>=◌, ◌>>◌, value, failed, Tried, M, wrapping, try, pure, look, hang, crash, given, fail,
}
use gnomock.Presets.Splunk.Requests.{Client, Event, insecure_request, is_conflict}
use gnomock.Engine.{World, Context}
use gnomock.Container.{Container, address}
use gnomock.Errors.{GoError, wrap, error, error_as, plain, canceled}
use gnomock.Base.Decimal.{atoi, itoa}
use gnomock.Docker.Client.{select_done}
use gnomock.Base.Int.{add_int64, int_eq}

abbrev pub collector_port : Text
collector_port = lit "collector"

abbrev pub api_port : Text
api_port = lit "api"

unfoldable pub api_uri : Container → Text → Text
api_uri c path = lit "https://" ++ (address c api_port ++ path)

unfoldable pub collector_uri : Container → Text → Text
collector_uri c path = lit "https://" ++ (address c collector_port ++ path)

-- `ctx` is the context of the ingestion.
module _ (w : World) (s : Client) (ctx : Context) where
  -- requestWithAuth(ctx, http.MethodPost, password, false)
  unfoldable pub post_form : Text → Text → Text → M Text
  post_form password uri body = insecure_request s (lit "POST") password false uri body

  -- The token of the first entry; there is a panic if there is none.
  first_token : List Text → M Text
  first_token [] = crash
  first_token (token ∷ tokens) = pure token

  unfoldable pub issue_token : Text → Container → M Text
  unfolding first_token
  issue_token password c = do
    name ← look s.token_name
    bs ← wrapping (lit "can't create new HEC token") (
        post_form password (api_uri c (lit "/services/data/inputs/http?output_mode=json"))
          (s.encode ((lit "name", name) ∷ [])))
    tokens ← wrapping (lit "can't unmarshal HEC token") (given (s.tokens bs))
    first_token tokens

  -- What follows the request for an index: one that exists is no error.
  unfoldable pub unless_conflict : Tried Text → M (Unit {0})
  unless_conflict (value bs) = pure tt
  unless_conflict (failed e) =
      if error_as is_conflict e then pure tt else fail (wrap (lit "can't create index") e)

  unfoldable pub post_index : Text → Container → Text → M (Unit {0})
  post_index password c index = do
    r ← try (
        post_form password (api_uri c (lit "/services/data/indexes?output_mode=json"))
          (lit "name=" ++ index))
    unless_conflict r

  -- The function that indexRegistry returns, from the indexes known so far to those after it.
  unfoldable pub ensure_index : Text → Container → List Text → Text → M (List Text)
  ensure_index password c known index =
      if any (text_eq index) known
      then pure known
      else do post_index password c index; pure (index ∷ known)

  -- The function that eventForwarder returns, for a token.
  unfoldable pub ingest_event : Text → Container → Event → M (Unit {0})
  ingest_event token c e = do
    bs ← wrapping (lit "can't marshal event to json") (given (s.marshal e))
    _ ←
        insecure_request s (lit "POST") token true
          (collector_uri c (lit "/services/collector?output_mode=json")) bs
    pure tt

  unfoldable pub ingest_each : Text → Text → Container → List Text → List Event → M (Unit {0})
  ingest_each password token c known [] = pure tt
  ingest_each password token c known (e ∷ events) = do
    over ← select_done w ctx
    if over then fail canceled else do
      known' ← ensure_index password c known e.index
      ingest_event token c e
      ingest_each password token c known' events

  unfoldable pub ingest_events : Container → Text → List Event → M (Unit {0})
  ingest_events c password events = do
    token ←
        wrapping (lit "can't setup event ingestion")
          (wrapping (lit "can't issue new HEC token") (issue_token password c))
    ingest_each password token c (lit "main" ∷ []) events

  -- response.Result["count"]: a missing count is zero and no error, since the `err` that is
  -- returned with it is nil.
  unfoldable pub count_of : Option Text → M ℤ
  unfolding atoi
  count_of none = pure (pos 0)
  count_of (some text) = elim (atoi text) [
    | none ↦ fail (plain (lit "strconv.Atoi: parsing " ++ text))
    | some n ↦ pure n
  ]

  -- The function that eventCounter returns.
  unfoldable pub count_events : Text → Container → M ℤ
  unfolding count_of
  count_events password c = do
    bs ← post_form password (api_uri c (lit "/services/search/jobs/export")) (
        s.encode (
          (lit "search", lit "search index=* | stats count")
          ∷ (lit "output_mode", lit "json")
          ∷ []))
    count ← given (s.counts bs)
    count_of count

  abbrev last_text : Option GoError → Text
  last_text none = lit "<nil>"
  last_text (some e) = error e

  unfoldable pub mismatch : ℤ → ℤ → Option GoError → GoError
  mismatch expected last_count last_err =
      wrap
        (lit "event count didn't match: want "
          ++ (itoa expected
              ++ (lit ", got "
                  ++ (itoa last_count ++ (lit "; last error: " ++ last_text last_err)))))
        canceled

  -- The loop of Ingest, which ends when the count is the expected one.
  unfoldable pub await_count : ℕ → Text → Container → ℤ → ℤ → Option GoError → M (Unit {0})
  await_count zero password c expected last_count last_err = hang
  await_count (suc fuel) password c expected last_count last_err = do
    over ← select_done w ctx
    if over then fail (mismatch expected last_count last_err) else do
      r ← try (count_events password c)
      elim r [
        | failed e ↦ await_count fuel password c expected (pos 0) (some e)
        | value n ↦
            let again = await_count fuel password c expected n none in
            if int_eq n expected then pure tt else again
      ]

  -- Ingest
  unfoldable pub ingest : ℕ → Container → Text → List Event → M (Unit {0})
  ingest fuel c password events = do
    initial ← wrapping (lit "can't get initial event count") (count_events password c)
    wrapping (lit "failed to ingest events") (ingest_events c password events)
    await_count fuel password c (add_int64 initial (length events)) (pos 0) none
