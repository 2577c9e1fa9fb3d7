-- ===== src/Presets/Rabbitmq/Publish.antt =====
-- What a successful initialization of rabbitmq has declared and published.
use gnomock.Base.{Text, List, ◌≡◌, ◌∷◌, map, ◌++◌, arith, lit, inr, inl, ◌∙◌, ap, sym, refl}
use gnomock.Presets.Rabbitmq.Calls.{declared, all_published, declare_queues-calls, send_each-calls}
use gnomock.Engine.Success.{bind-ok, closing-ok}
use gnomock.Presets.Files.Decoded.{
  AllDecoded-unique, load_files-kept, AllDecoded, load_files-AllDecoded,
}
use gnomock.Presets.Files
use gnomock.Presets.Rabbitmq.{
  after_initf, P, Client, Message, initf, connect, declare_queues, send_each, load_files,
  ingest_messages, messages_by_queue, dial_call, url_of, channel_call,
}
use gnomock.Engine.{History, Reply}
use gnomock.Container.{Container}
use mathlib.Core.List.{Perm}
use mathlib.Core.Path.{subst}
use gnomock.Base.Assoc.{Assoc}
use gnomock.Engine.Actions.{
  answer, kept_if, ok, Reply-cases, wrapping, ended, ask, look, ◌>>=◌, ◌>>◌, returned, refused,
  panicked, hung,
}

module _ (s : Client) where
  -- The calls that send these messages on a connection.
  abbrev sent_on : List Message → History → History
  sent_on messages h =
      let by_queue = messages_by_queue messages in
      let g = declared (map (λ e. e.0) (s.ranges by_queue (channel_call ∷ h))) (channel_call ∷ h) in
      all_published (s.ranges by_queue g) g

  abbrev sent : Text → List Message → History → History
  sent url messages h = sent_on messages (dial_call url ∷ h)

  -- The same, for any order of the declarations and any order of the queues in the publications.
  abbrev pub Sent : Text → List Message → History → History → Type 0
  Sent url messages h h' =
      (keys : Assoc (List Message)) × (entries : Assoc (List Message)) × Perm keys
        (messages_by_queue messages)
      × Perm entries (messages_by_queue messages)
      × (h'
          ≡ all_published entries
              (declared (map (λ e. e.0) keys) (channel_call ∷ dial_call url ∷ h)))

  -- A loop over a map meets every entry once.
  abbrev pub Ranges : Type 0
  Ranges = (m : Assoc (List Message)) (h : History) → Perm (s.ranges m h) m

  sent-Sent :
      (url : Text) (messages : List Message) (h : History)
      → Ranges
      → Sent url messages h (sent url messages h)
  sent-Sent url messages h all = (_, _, all _ _, all _ _, refl)

  after_load :
      (all : List Message) (h h' : History)
      → (wrapping (lit "can't open channel") (ask channel_call s.opens_channel)
            >> (look (s.ranges (messages_by_queue all)) >>= λ keys.
                declare_queues s (map (λ e. e.0) keys)
                >> (look (s.ranges (messages_by_queue all)) >>= send_each s)))
          h
        ≡ (ok tt, h')
      → h' ≡ sent_on all h
  after_load all h h' e = elim (Reply-cases (s.opens_channel h)) [
    | inr (x, p) ↦ absurd (ground arith)
    | inl (u, p) ↦
        let by_queue = messages_by_queue all in
        let keys = map (λ x. x.0) (s.ranges by_queue (channel_call ∷ h)) in
        let (v, g, q, r) =
          bind-ok (declare_queues s keys) (λ _ k. send_each s (s.ranges by_queue k) k)
            (channel_call ∷ h) h' tt (ground arith) in
        send_each-calls s (s.ranges by_queue g) g h' r
        ∙ ap (λ k. all_published (s.ranges by_queue k) k)
            (declare_queues-calls s keys (channel_call ∷ h) g q)
  ]

  ingest-calls :
      (p : P) (url : Text) (h h' : History)
      → ingest_messages s p (dial_call url ∷ h) ≡ (ok tt, h')
      → (more : List Message) × AllDecoded s.files p.messages_files more
        × (h' ≡ sent url (p.messages ++ more) h)
  unfolding ingest_messages load_files
  ingest-calls p url h h' e =
      elim (ended (Files.load_files s.files p.messages_files p.messages (dial_call url ∷ h))) [
        | returned all g q ↦
            let (more, ds, split_all, same) =
              load_files-AllDecoded s.files p.messages_files p.messages all (dial_call url ∷ h) g
                q in
            (
              more,
              ds,
              after_load all g h' (ground arith)
                  ∙ ap (λ a. sent_on a g) split_all
                  ∙ ap (λ k. sent_on (p.messages ++ more) k) same,
            )
        | refused x g q ↦ absurd (ground arith)
        | panicked g q ↦ absurd (ground arith)
        | hung g q ↦ absurd (ground arith)
      ]

  initf-sent :
      (p : P) (c : Container) (h h' : History)
      → initf s p c h ≡ (ok tt, h')
      → (more : List Message) × AllDecoded s.files p.messages_files more
        × (h' ≡ sent (url_of p c) (p.messages ++ more) h)
  unfolding initf connect
  initf-sent p c h h' e = elim (Reply-cases (s.dials (url_of p c) h)) [
    | inr (x, q) ↦ absurd (ground arith)
    | inl (u, q) ↦ ingest-calls p (url_of p c) h h' (
        closing-ok s.close_conn (ingest_messages s p) (dial_call (url_of p c) ∷ h) h' tt
          (ground arith))
  ]

  -- A successful initialization has made these calls and no others: a connection as the user of the
  -- preset and a channel; one declaration for each queue of a message, in any order; and, queue by
  -- queue, in any order, one publication for each message, those of the preset and then those of its
  -- files.
  pub initf-published :
      Ranges
      → (p : P) (c : Container) (h h' : History) → initf s p c h ≡ (ok tt, h')
      → (more : List Message) × AllDecoded s.files p.messages_files more
        × Sent (url_of p c) (p.messages ++ more) h h'
  initf-published all p c h h' e =
      let (more, decoded, calls) = initf-sent p c h h' e in
      let now = sent-Sent (url_of p c) (p.messages ++ more) h all in
      (more, decoded, subst (Sent (url_of p c) (p.messages ++ more) h) (sym calls) now)

  -- What the preset is after an initialization that succeeded.
  after_initf-kept :
      (p : P) (c : Container) (h h' : History) (more : List Message)
      → initf s p c h ≡ (ok tt, h')
      → AllDecoded s.files p.messages_files more
      → after_initf s p c h ≡ record p { messages = p.messages ++ more }
  unfolding initf connect after_initf ingest_messages load_files
  after_initf-kept p c h h' more e decoded =
      let g = dial_call (url_of p c) ∷ h in
      elim (Reply-cases (s.dials (url_of p c) h)) [
        | inr (x, q) ↦ absurd (ground arith)
        | inl (u, q) ↦
            let ingested = closing-ok s.close_conn (ingest_messages s p) g h' tt (ground arith) in
            elim (ended (Files.load_files s.files p.messages_files p.messages g)) [
              | returned all k r ↦
                  let (again, ds, split_all, same) =
                    load_files-AllDecoded s.files p.messages_files p.messages all g k r in
                  let one = AllDecoded-unique s.files p.messages_files more again decoded ds in
                  let kept = load_files-kept s.files p.messages_files p.messages all g k r in
                  let keep = λ (a : Reply (Unit {0})).
                    kept_if (answer a)
                      (λ v. record p {
                        messages = Files.kept_messages s.files p.messages_files p.messages;
                      })
                      p in
                  let now = ap keep q in
                  now
                  ∙ ap (λ m. record p { messages = m })
                      (kept ∙ split_all ∙ ap (λ m. p.messages ++ m) (sym one))
              | refused x k r ↦ absurd (ground arith)
              | panicked k r ↦ absurd (ground arith)
              | hung k r ↦ absurd (ground arith)
            ]
      ]

  -- If a loop over a map meets every entry once, a preset value that is initialized a second time,
  -- after an initialization that succeeded, sends the messages of its files twice in the second one,
  -- if that succeeds too.
  pub initf-again :
      Ranges
      → (p : P) (c d : Container) (h h' k k' : History) → initf s p c h ≡ (ok tt, h')
      → initf s (after_initf s p c h) d k ≡ (ok tt, k')
      → (more : List Message) × AllDecoded s.files p.messages_files more
        × Sent (url_of p d) ((p.messages ++ more) ++ more) k k'
  unfolding url_of
  initf-again all p c d h h' k k' e f =
      let (more, decoded, calls) = initf-sent p c h h' e in
      let q = record p { messages = p.messages ++ more } in
      let second : initf s q d k ≡ (ok tt, k') =
        ap (λ x. initf s x d k) (sym (after_initf-kept p c h h' more e decoded)) ∙ f in
      let (again, ds, last) = initf-published all q d k k' second in
      let one = AllDecoded-unique s.files p.messages_files again more ds decoded in
      (more, decoded, subst (λ m. Sent (url_of p d) ((p.messages ++ more) ++ m) k k') one last)
