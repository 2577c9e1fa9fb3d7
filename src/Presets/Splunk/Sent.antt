-- ===== src/Presets/Splunk/Sent.antt =====
-- What an ingestion of events sends.
use gnomock.Base.{
  Text, ◌≡◌, [], List, Bool, ◌∷◌, ℤ, lit, if◌then◌else◌, true, false, arith, any, ◌++◌, text_eq,
  inr, inl, Bool-cases, pos,
}
use gnomock.Engine.Actions.{ok, Reply-cases, ended, returned, refused, panicked, hung}
use gnomock.Presets.Splunk.Requests.{
  Client, Event, insecure_request, read_response, request_call, by_status,
}
use gnomock.Presets.Splunk.Collector.{
  ingest_each, ensure_index, ingest_event, post_index, api_uri, collector_uri, post_form,
  unless_conflict,
}
use gnomock.Engine.{World, Reply, reply, Context, refuse, History, Call, select}
use gnomock.Container.{Container}
use gnomock.Docker.Client.{select_done}
use gnomock.Base.Int.{int_eq, ltb_ℤ}

abbrev text_of : Reply Text → Text
text_of (reply t) = t
text_of (refuse e) = []

module _ (w : World) (s : Client) (ctx : Context) (password token : Text) (c : Container)
    (valid : (uri : Text) → s.new_request uri ≡ reply tt) where
  -- The request that creates an index, and the one that sends an event.
  abbrev pub index_call : Text → Call
  index_call index =
      request_call (lit "POST") password false
        (api_uri c (lit "/services/data/indexes?output_mode=json")) (lit "name=" ++ index)

  abbrev pub event_call : Event → Call
  event_call e =
      request_call (lit "POST") token true
        (collector_uri c (lit "/services/collector?output_mode=json")) (text_of (s.marshal e))

  -- The history once the index of an event exists.
  abbrev pub indexed : List Text → Text → History → History
  indexed known index h = if any (text_eq index) known then h else index_call index ∷ h

  -- For each event, in order: the context is looked at, its index is created if it is not known, and
  -- the event is sent.
  abbrev pub sent : List Text → List Event → History → History
  sent known [] h = h
  sent known (e ∷ events) h =
      sent (if any (text_eq e.index) known then known else e.index ∷ known) events
        (event_call e ∷ indexed known e.index (select ctx ∷ h))

  read_response-calls : (r : ℤ × Text) (h : History) → (read_response s r h).1 ≡ h
  unfolding read_response by_status
  read_response-calls (code, status) h = elim (Reply-cases (s.read_body h)) [
    | inr (x, p) ↦ ground arith
    | inl (bs, p) ↦ elim (Bool-cases (int_eq code (pos 409))) [
      | inl q ↦ ground arith
      | inr q ↦ elim (Bool-cases (ltb_ℤ code (pos 400))) [
        | inl r ↦ ground arith
        | inr r ↦ ground arith
      ]
    ]
  ]

  insecure_request-calls :
      (method key : Text) (is_json : Bool) (uri body : Text) (h : History)
      → (insecure_request s method key is_json uri body h).1
        ≡ request_call method key is_json uri body ∷ h
  unfolding insecure_request
  insecure_request-calls method key is_json uri body h =
      elim (Reply-cases (s.do_request method uri body h)) [
        | inl (r, p) ↦
            ground (
              arith,
              valid uri,
              read_response-calls r (request_call method key is_json uri body ∷ h),
            )
        | inr (x, p) ↦ ground (arith, valid uri)
      ]

  ensure_index-calls :
      (known known' : List Text) (index : Text) (h h' : History)
      → ensure_index w s ctx password c known index h ≡ (ok known', h')
      → (known' ≡ (if any (text_eq index) known then known else index ∷ known))
        × (h' ≡ indexed known index h)
  unfolding ensure_index post_index post_form unless_conflict
  ensure_index-calls known known' index h h' e = elim (Bool-cases (any (text_eq index) known)) [
    | inl is_known ↦ (ground arith, ground arith)
    | inr new ↦
        let uri = api_uri c (lit "/services/data/indexes?output_mode=json") in
        let body = lit "name=" ++ index in
        let calls = insecure_request-calls (lit "POST") password false uri body h in
        elim (ended (insecure_request s (lit "POST") password false uri body h)) [
          | returned bs g p ↦ (ground arith, ground arith)
          | refused x g p ↦ (ground arith, ground arith)
          | panicked g p ↦ absurd (ground arith)
          | hung g p ↦ absurd (ground arith)
        ]
  ]

  ingest_event-calls :
      (e : Event) (h h' : History)
      → ingest_event w s ctx token c e h ≡ (ok tt, h')
      → h' ≡ event_call e ∷ h
  unfolding ingest_event
  ingest_event-calls e h h' q = elim (Reply-cases (s.marshal e)) [
    | inr (x, p) ↦ absurd (ground arith)
    | inl (bs, p) ↦
        let uri = collector_uri c (lit "/services/collector?output_mode=json") in
        let calls = insecure_request-calls (lit "POST") token true uri bs h in
        elim (ended (insecure_request s (lit "POST") token true uri bs h)) [
          | returned t g r ↦ ground arith
          | refused x g r ↦ absurd (ground arith)
          | panicked g r ↦ absurd (ground arith)
          | hung g r ↦ absurd (ground arith)
        ]
  ]

  -- If requests can be built, a successful ingestion has made these calls and no others: for each
  -- event, in order, a look at the context, the request for its index unless that is known or was
  -- requested for an earlier event, and the event.
  pub ingest_each-sent :
      (known : List Text) (events : List Event) (h h' : History)
      → ingest_each w s ctx password token c known events h ≡ (ok tt, h')
      → h' ≡ sent known events h
  unfolding ingest_each select_done
  ingest_each-sent known [] h h' q = ground arith
  ingest_each-sent known (e ∷ events) h h' q = elim (Bool-cases (w.done ctx h)) [
    | inl over ↦ absurd (ground arith)
    | inr early ↦ elim (ended (ensure_index w s ctx password c known e.index (select ctx ∷ h))) [
      | returned known' g p ↦
          let (same, calls) = ensure_index-calls known known' e.index (select ctx ∷ h) g p in
          elim (ended (ingest_event w s ctx token c e g)) [
            | returned u k r ↦
                ground (arith, ingest_event-calls e g k r, ingest_each-sent known' events k h')
            | refused x k r ↦ absurd (ground arith)
            | panicked k r ↦ absurd (ground arith)
            | hung k r ↦ absurd (ground arith)
          ]
      | refused x g p ↦ absurd (ground arith)
      | panicked g p ↦ absurd (ground arith)
      | hung g p ↦ absurd (ground arith)
    ]
  ]
