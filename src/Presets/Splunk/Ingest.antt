-- ===== src/Presets/Splunk/Ingest.antt =====
-- When an ingestion of events ends, and what a successful one has seen.
use gnomock.Base.{
  Text, none, some, ◌≢◌, ℕ, ◌≤◌, ◌≡◌, ℤ, List, true, Option, Bool-cases, Bool, ◌+◌, pos, length,
  arith, suc, inl, inr, ◌∷◌, ap, zero, sym, ◌∙◌, lit, Option-cases, refl, [], false,
}
use gnomock.Engine.Actions.{
  stuck, ok, ended, returned, refused, panicked, hung, Result, wrapping, given, ask, Reply-cases,
  ◌>>=◌,
}
use gnomock.Engine.Trace.{rounds}
use gnomock.Presets.Splunk.Collector.{
  api_uri, await_count, count_events, ingest, ingest_events, post_form, count_of,
}
use gnomock.Engine.Quiet.{Quiet, bind-Quiet, given-Quiet, wrapping-Quiet, closing-Quiet}
use gnomock.Presets.Splunk.Requests.{
  Client, Event, insecure_request, request_call, by_status, closed, read_response, read_all,
}
use gnomock.Engine.{World, History, Context, select}
use gnomock.Container.{Container}
use gnomock.Docker.Client.{select_done}
use gnomock.Errors.{GoError}
use gnomock.Base.Int.{int_eq, add_int64, ltb_ℤ, int_eq_iff}
use gnomock.Base.Decimal.{atoi}

module _ (w : World) (s : Client) (ctx : Context) (password : Text) (c : Container) where
  by_status-Quiet : (code : ℤ) (status bs : Text) (h : History) → Quiet (by_status code status bs) h
  unfolding by_status
  by_status-Quiet code status bs h = elim (Bool-cases (int_eq code (pos 409))) [
    | inl p ↦ (λ e. ground arith, ground arith)
    | inr p ↦ elim (Bool-cases (ltb_ℤ code (pos 400))) [
      | inl q ↦ (λ e. ground arith, ground arith)
      | inr q ↦ (λ e. ground arith, ground arith)
    ]
  ]

  asks :
      (method key : Text) (is_json : Bool) (uri body : Text) (h : History)
      → Quiet
          (wrapping
            (lit "request failed")
            (ask (request_call method key is_json uri body) (s.do_request method uri body)))
          h
  unfolding request_call
  asks method key is_json uri body h = elim (Reply-cases (s.do_request method uri body h)) [
    | inl (a, p) ↦ (λ e. ground arith, ground arith)
    | inr (x, p) ↦ (λ e. ground arith, ground arith)
  ]

  read_all-Quiet : (h : History) → Quiet (wrapping (lit "can't read response body") (read_all s)) h
  read_all-Quiet h =
      wrapping-Quiet (lit "can't read response body") (read_all s) h (given-Quiet (s.read_body h) h)

  read_response-Quiet : (r : ℤ × Text) (h : History) → Quiet (read_response s r) h
  unfolding read_response
  read_response-Quiet (code, status) h =
      closing-Quiet (closed s.close_body)
        (wrapping (lit "can't read response body") (read_all s) >>= by_status code status) h
        (bind-Quiet (wrapping (lit "can't read response body") (read_all s)) (by_status code status)
          h (read_all-Quiet h) (λ bs g. by_status-Quiet code status bs g))

  insecure_request-Quiet :
      (method key : Text) (is_json : Bool) (uri body : Text) (h : History)
      → Quiet (insecure_request s method key is_json uri body) h
  unfolding insecure_request
  insecure_request-Quiet method key is_json uri body h =
      let created =
        wrapping {A = Unit {0}} (lit "can't create request") (given (s.new_request uri)) in
      let asked =
        wrapping (lit "request failed")
          (ask (request_call method key is_json uri body) (s.do_request method uri body)) in
      bind-Quiet created (λ u. asked >>= read_response s) h
        (wrapping-Quiet (lit "can't create request") (given (s.new_request uri)) h
          (given-Quiet (s.new_request uri) h))
        (λ u g.
          bind-Quiet asked (read_response s) g (asks method key is_json uri body g)
            (λ r k. read_response-Quiet r k))

  count_of-Quiet : (o : Option Text) (h : History) → Quiet (count_of w s ctx o) h
  unfolding count_of
  count_of-Quiet none h = (λ e. ground arith, refl)
  count_of-Quiet (some text) h = elim (Option-cases (atoi text)) [
    | inl p ↦ (λ e. ground arith, ground arith)
    | inr (n, p) ↦ (λ e. ground arith, ground arith)
  ]

  count_events-Quiet : (h : History) → Quiet (count_events w s ctx password c) h
  unfolding count_events post_form
  count_events-Quiet h =
      let form = s.encode (
        (lit "search", lit "search index=* | stats count")
        ∷ (lit "output_mode", lit "json")
        ∷ []) in
      let uri = api_uri c (lit "/services/search/jobs/export") in
      let posted = insecure_request s (lit "POST") password false uri form in
      bind-Quiet posted (λ bs. given (s.counts bs) >>= count_of w s ctx) h
        (insecure_request-Quiet (lit "POST") password false uri form h)
        (λ bs g.
          bind-Quiet (given (s.counts bs)) (count_of w s ctx) g (given-Quiet (s.counts bs) g)
            (λ o k. count_of-Quiet o k))

  -- The loop returns without an error only when the last count is the expected one.
  await_count-ok :
      (fuel : ℕ) (expected last : ℤ) (o : Option GoError) (h h' : History)
      → await_count w s ctx fuel password c expected last o h ≡ (ok tt, h')
      → (g : History) × (count_events w s ctx password c g ≡ (ok expected, h'))
  unfolding await_count select_done
  await_count-ok zero expected last o h h' e = absurd (ground arith)
  await_count-ok (suc fuel) expected last o h h' e = elim (Bool-cases (w.done ctx h)) [
    | inl over ↦ absurd (ground arith)
    | inr early ↦ elim (ended (count_events w s ctx password c (select ctx ∷ h))) [
      | returned n g p ↦ elim (Bool-cases (int_eq n expected)) [
        | inl same ↦ (select ctx ∷ h, ground (arith, int_eq_iff n expected))
        | inr other ↦ await_count-ok fuel expected n none g h' (ground arith)
      ]
      | refused x g p ↦ await_count-ok fuel expected (pos 0) (some x) g h' (ground arith)
      | panicked g p ↦ absurd (ground arith)
      | hung g p ↦ absurd (ground arith)
    ]
  ]

  -- If the context is done after `n` rounds, then fuel for `n` rounds more than those already made
  -- is enough for the loop to return.
  await_count-ends :
      (n : ℕ)
      → ((h : History) → n ≤ rounds h → w.done ctx h ≡ true)
      → (fuel : ℕ) (expected last : ℤ) (o : Option GoError) (h : History) → n ≤ fuel + rounds h
      → (await_count w s ctx (suc fuel) password c expected last o h).0 ≢ stuck
  unfolding await_count select_done
  await_count-ends n over zero expected last o h le e = ground (arith, over h (omega arith))
  await_count-ends n over (suc fuel) expected last o h le e =
      let (returns, quiet) = count_events-Quiet (select ctx ∷ h) in
      elim (Bool-cases (w.done ctx h)) [
        | inl found ↦ absurd (ground arith)
        | inr early ↦ elim (ended (count_events w s ctx password c (select ctx ∷ h))) [
          | returned k g p ↦
              let kept : rounds g ≡ suc (rounds h) =
                ap (λ (m : Result ℤ × History). rounds m.1) (sym p) ∙ quiet in
              elim (Bool-cases (int_eq k expected)) [
                | inl same ↦ absurd (ground arith)
                | inr other ↦
                    await_count-ends n over fuel expected k none g (omega arith) (ground arith)
              ]
          | refused x g p ↦
              let kept : rounds g ≡ suc (rounds h) =
                ap (λ (m : Result ℤ × History). rounds m.1) (sym p) ∙ quiet in
              await_count-ends n over fuel expected (pos 0) (some x) g (omega arith) (ground arith)
          | panicked g p ↦ absurd (ground arith)
          | hung g p ↦ absurd (ground arith)
        ]
      ]

  -- A successful ingestion has counted the events first, then ingested the given ones, and its last
  -- step was a count that gave the first count and the number of the given events together.
  pub ingest-ok :
      (fuel : ℕ) (events : List Event) (h h' : History)
      → ingest w s ctx fuel c password events h ≡ (ok tt, h')
      → (initial : ℤ) × (g : History) × (k : History) × (l : History) × (count_events w s ctx
            password c h
          ≡ (ok initial, g))
        × (ingest_events w s ctx c password events g ≡ (ok tt, k))
        × (count_events w s ctx password c l ≡ (ok (add_int64 initial (length events)), h'))
  unfolding ingest
  ingest-ok fuel events h h' e = elim (ended (count_events w s ctx password c h)) [
    | returned initial g p ↦ elim (ended (ingest_events w s ctx c password events g)) [
      | returned u k q ↦
          let (l, last) =
            await_count-ok fuel (add_int64 initial (length events)) (pos 0) none k h'
              (ground arith) in
          (initial, g, k, l, p, q, last)
      | refused x k q ↦ absurd (ground arith)
      | panicked k q ↦ absurd (ground arith)
      | hung k q ↦ absurd (ground arith)
    ]
    | refused x g p ↦ absurd (ground arith)
    | panicked g p ↦ absurd (ground arith)
    | hung g p ↦ absurd (ground arith)
  ]
