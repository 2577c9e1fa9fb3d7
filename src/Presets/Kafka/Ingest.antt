-- ===== src/Presets/Kafka/Ingest.antt =====
-- What a successful initialization of kafka has sent.
use gnomock.Base.{Text, List, ◌≡◌, ◌∷◌, map, ◌++◌, arith, refl, inr, inl, [], ◌∙◌, lit, ap, sym}
use gnomock.Presets.Files.{load_files}
use gnomock.Presets.Files.Decoded.{AllDecoded, load_files-AllDecoded}
use gnomock.Engine.Success.{closing-ok}
use gnomock.Presets.Kafka.{
  P, Client, Message, initf, connect, messages_by_topics, send_each, ingest_message_files,
  send_messages_into_topic, create_topics, create_topics_call, write_call, dial_call,
  broker_port_name,
}
use gnomock.Container.{Container, address}
use gnomock.Base.Assoc.{Assoc}
use gnomock.Engine.Actions.{
  ok, Reply-cases, ended, returned, refused, panicked, hung, wrapping, ◌>>◌, ◌>>=◌, look,
}
use gnomock.Engine.{History}
use mathlib.Core.List.{Perm}
use mathlib.Core.Path.{subst}

-- One write for each topic.
abbrev pub written : Text → Assoc (List Message) → History → History
written addr [] h = h
written addr ((topic, messages) ∷ rest) h = written addr rest (write_call addr topic messages ∷ h)

module _ (s : Client) where
  send_each-calls :
      (addr : Text) (m : Assoc (List Message)) (h h' : History)
      → send_each s addr m h ≡ (ok tt, h')
      → h' ≡ written addr m h
  unfolding send_each send_messages_into_topic
  send_each-calls addr [] h h' e = ground arith
  send_each-calls addr ((topic, messages) ∷ rest) h h' e =
      elim (Reply-cases (s.writes addr topic messages h)) [
        | inl (u, p) ↦ elim (Reply-cases (s.close_writer topic)) [
          | inl (v, q) ↦
              send_each-calls addr rest (write_call addr topic messages ∷ h) h' (ground arith)
          | inr (x, q) ↦ absurd (ground arith)
        ]
        | inr (x, p) ↦ elim (Reply-cases (s.close_writer topic)) [
          | inl (v, q) ↦ absurd (ground arith)
          | inr (y, q) ↦ absurd (ground arith)
        ]
      ]

  abbrev requested : P → List Message → History → History
  requested p messages h =
      create_topics_call (p.topics ++ map (λ e. e.0) (s.ranges (messages_by_topics messages) h)) ∷ h

  -- The calls of ingestMessageFiles, after `h`.
  abbrev ingested : P → Text → List Message → History → History
  ingested p addr messages h =
      written addr (s.ranges (messages_by_topics messages) (requested p messages h))
        (requested p messages h)

  -- The calls of an initialization that sends these messages.
  abbrev pub sent : P → Text → List Message → History → History
  sent p addr messages h = ingested p addr messages (dial_call addr ∷ h)

  -- The same, for any order of the topics in the request and any order of the writes.
  abbrev pub Sent : P → Text → List Message → History → History → Type 0
  Sent p addr messages h h' =
      (keys : Assoc (List Message)) × (entries : Assoc (List Message)) × Perm keys
        (messages_by_topics messages)
      × Perm entries (messages_by_topics messages)
      × (h'
          ≡ written addr entries
              (create_topics_call (p.topics ++ map (λ e. e.0) keys) ∷ dial_call addr ∷ h))

  -- A loop over a map meets every entry once.
  abbrev pub Ranges : Type 0
  Ranges = (m : Assoc (List Message)) (h : History) → Perm (s.ranges m h) m

  sent-Sent :
      (p : P) (addr : Text) (messages : List Message) (h : History)
      → Ranges
      → Sent p addr messages h (sent p addr messages h)
  sent-Sent p addr messages h all = (_, _, all _ _, all _ _, refl)

  after_load :
      (p : P) (c : Container) (all : List Message) (h h' : History)
      → (wrapping
              (lit "can't create topics")
              (create_topics s (p.topics ++ map (λ e. e.0) (s.ranges (messages_by_topics all) h)))
            >> (look (s.ranges (messages_by_topics all))
                >>= send_each s (address c broker_port_name)))
          h
        ≡ (ok tt, h')
      → h' ≡ ingested p (address c broker_port_name) all h
  unfolding create_topics
  after_load p c all h h' e =
      let topics = p.topics ++ map (λ x. x.0) (s.ranges (messages_by_topics all) h) in
      elim (Reply-cases (s.creates_topics topics h)) [
        | inl (u, r) ↦
            send_each-calls (address c broker_port_name)
              (s.ranges (messages_by_topics all) (create_topics_call topics ∷ h))
              (create_topics_call topics ∷ h) h' (ground arith)
        | inr (x, r) ↦ absurd (ground arith)
      ]

  ingest-calls :
      (p : P) (c : Container) (h h' : History)
      → ingest_message_files s p c h ≡ (ok tt, h')
      → (more : List Message) × AllDecoded s.files p.messages_files more
        × (h' ≡ ingested p (address c broker_port_name) (p.messages ++ more) h)
  unfolding ingest_message_files
  ingest-calls p c h h' e = elim (ended (load_files s.files p.messages_files p.messages h)) [
    | returned all g q ↦
        let (more, ds, split_all, same) =
          load_files-AllDecoded s.files p.messages_files p.messages all h g q in
        let addr = address c broker_port_name in
        (
          more,
          ds,
          after_load p c all g h' (ground arith)
              ∙ ap (λ a. ingested p addr a g) split_all
              ∙ ap (λ k. ingested p addr (p.messages ++ more) k) same,
        )
    | refused x g q ↦ absurd (ground arith)
    | panicked g q ↦ absurd (ground arith)
    | hung g q ↦ absurd (ground arith)
  ]

  -- What a successful initialization has called, for the orders of its two loops.
  initf-calls :
      (p : P) (c : Container) (h h' : History)
      → initf s p c h ≡ (ok tt, h')
      → (more : List Message) × AllDecoded s.files p.messages_files more
        × (h' ≡ sent p (address c broker_port_name) (p.messages ++ more) h)
  unfolding initf connect
  initf-calls p c h h' e =
      let addr = address c broker_port_name in
      elim (Reply-cases (s.dials addr h)) [
        | inr (x, q) ↦ absurd (ground arith)
        | inl (u, q) ↦ ingest-calls p c (dial_call addr ∷ h) h' (
            closing-ok s.close_conn (ingest_message_files s p c) (dial_call addr ∷ h) h' tt
              (ground arith))
      ]

  -- A successful initialization has made these calls and no others: one connection to the broker;
  -- one request for the given topics and the topics of all messages, those of the preset and then
  -- those of its files; and one write for each topic of a message.
  pub initf-Sent :
      Ranges
      → (p : P) (c : Container) (h h' : History) → initf s p c h ≡ (ok tt, h')
      → (more : List Message) × AllDecoded s.files p.messages_files more
        × Sent p (address c broker_port_name) (p.messages ++ more) h h'
  initf-Sent all p c h h' e =
      let (more, decoded, calls) = initf-calls p c h h' e in
      let addr = address c broker_port_name in
      let now = sent-Sent p addr (p.messages ++ more) h all in
      (more, decoded, subst (Sent p addr (p.messages ++ more) h) (sym calls) now)
