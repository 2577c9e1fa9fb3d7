-- ===== src/Tests/Splunk.antt =====
-- Witnesses for the preset of splunk.
use gnomock.Base.{Text, some, lit, List, ◌∷◌, pos, [], text_eq, ◌≡◌, ℤ, refl}
use gnomock.Presets.Splunk.Requests
use gnomock.Presets.Splunk.Collector.{
  ingest, ingest_each, await_count, count_events, ingest_events, count_of, issue_token,
  ensure_index, post_index, post_form, unless_conflict, ingest_event,
}
use gnomock.Presets.Splunk.Sent.{sent, ingest_each-sent}
use gnomock.Presets.Splunk.Ingest.{ingest-ok}
use gnomock.Tests.Worlds.{calm, box}
use gnomock.Engine.{reply, History, background}
use gnomock.Docker.Client.{select_done}
use gnomock.Presets.Splunk.Requests.{
  insecure_request, read_response, closed, by_status, request_call,
}
use gnomock.Engine.Actions.{ok}
use gnomock.Base.Int.{int_eq, add_int64}
use gnomock.Base.Decimal.{atoi}

-- Every count is 1, and every event is the text `{}`.
abbrev pub collector : Requests.Client
collector = record {
  new_request = λ uri. reply tt;
  do_request = λ method uri body h. reply (pos 200, lit "200 OK");
  read_body = λ h. reply [];
  close_body = reply tt;
  encode = λ pairs. [];
  token_name = λ h. lit "gnomock-1";
  tokens = λ bs. reply (lit "t" ∷ []);
  counts = λ bs. reply (some (lit "1"));
  marshal = λ e. reply (lit "{}");
  opens_file = λ file. reply tt;
  decodes = λ file. [];
}

abbrev entry : Text → Requests.Event
entry index = record { event = lit "e"; index = index; source = []; source_type = []; time = pos 0 }

abbrev entries : List Requests.Event
entries = entry (lit "a") ∷ entry (lit "a") ∷ []

abbrev entries_calls : History
entries_calls =
    (ingest_each calm collector background (lit "p") (lit "t") box (lit "main" ∷ []) entries []).1

ingest_each-sent_example :
    entries_calls
    ≡ sent calm collector background
        (lit "p")
        (lit "t")
        box
        (λ uri. refl)
        (lit "main" ∷ [])
        entries
        []
unfolding ingest_each select_done ensure_index post_index post_form unless_conflict ingest_event
    insecure_request read_response closed by_status int_eq request_call text_eq lit
ingest_each-sent_example =
    ingest_each-sent calm collector background (lit "p") (lit "t") box (λ uri. refl)
      (lit "main" ∷ []) entries [] entries_calls refl

-- Nothing is ingested, and the count stays the same.
abbrev no_events : History
no_events = (ingest calm collector background 2 box (lit "p") [] []).1

ingest-ok_example :
    (initial : ℤ) × (g : History) × (k : History) × (l : History) × (count_events calm collector
        background
        (lit "p")
        box
        []
      ≡ (ok initial, g))
    × (ingest_events calm collector background box (lit "p") [] g ≡ (ok tt, k))
    × (count_events calm collector background (lit "p") box l
        ≡ (ok (add_int64 initial 0), no_events))
unfolding ingest ingest_events ingest_each await_count count_events count_of issue_token post_form
    select_done insecure_request read_response closed by_status int_eq atoi add_int64 lit
    request_call
ingest-ok_example = ingest-ok calm collector background (lit "p") box 2 [] [] no_events refl
