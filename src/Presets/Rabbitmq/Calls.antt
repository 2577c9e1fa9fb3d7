-- ===== src/Presets/Rabbitmq/Calls.antt =====
-- The calls of the loops of rabbitmq over queues and messages.
use gnomock.Base.{Text, List, ◌≡◌, ◌∷◌, [], ◌++◌, arith, lit, inr, inl}
use gnomock.Engine.Success.{bind-ok, wrapping-ok}
use gnomock.Presets.Rabbitmq.{
  Client, Message, declare_queues, send_each, send_messages_into_queue, body_of, publish_call,
  declare_call,
}
use gnomock.Engine.{History}
use gnomock.Base.Assoc.{Assoc}
use gnomock.Engine.Actions.{ok, Reply-cases, wrapping}

-- One declaration for each queue.
abbrev pub declared : List Text → History → History
declared [] h = h
declared (queue ∷ queues) h = declared queues (declare_call queue ∷ h)

-- One publication for each message.
abbrev pub published : Text → List Message → History → History
published queue [] h = h
published queue (m ∷ messages) h =
    published queue messages (publish_call queue m.content_type (body_of m) ∷ h)

abbrev pub all_published : Assoc (List Message) → History → History
all_published [] h = h
all_published ((queue, messages) ∷ rest) h = all_published rest (published queue messages h)

module _ (s : Client) where
  pub declare_queues-calls :
      (queues : List Text) (h h' : History)
      → declare_queues s queues h ≡ (ok tt, h')
      → h' ≡ declared queues h
  unfolding declare_queues
  declare_queues-calls [] h h' e = ground arith
  declare_queues-calls (q ∷ queues) h h' e = elim (Reply-cases (s.declares q h)) [
    | inl (u, p) ↦ declare_queues-calls queues (declare_call q ∷ h) h' (ground arith)
    | inr (x, p) ↦ absurd (ground arith)
  ]

  send-calls :
      (queue : Text) (messages : List Message) (h h' : History)
      → send_messages_into_queue s queue messages h ≡ (ok tt, h')
      → h' ≡ published queue messages h
  unfolding send_messages_into_queue
  send-calls queue [] h h' e = ground arith
  send-calls queue (m ∷ messages) h h' e =
      elim (Reply-cases (s.publishes queue m.content_type (body_of m) h)) [
        | inl (u, p) ↦
            send-calls queue messages (publish_call queue m.content_type (body_of m) ∷ h) h'
              (ground arith)
        | inr (x, p) ↦ absurd (ground arith)
      ]

  pub send_each-calls :
      (m : Assoc (List Message)) (h h' : History)
      → send_each s m h ≡ (ok tt, h')
      → h' ≡ all_published m h
  unfolding send_each
  send_each-calls [] h h' e = ground arith
  send_each-calls ((queue, messages) ∷ rest) h h' e =
      let prefix = lit "can't send messages into queue '" ++ (queue ++ lit "'") in
      let send = send_messages_into_queue s queue messages in
      let (u, g, p, q) = bind-ok (wrapping prefix send) (λ _. send_each s rest) h h' tt e in
      let now = send-calls queue messages h g (wrapping-ok prefix send h g tt p) in
      ground (arith, send_each-calls rest g h')
