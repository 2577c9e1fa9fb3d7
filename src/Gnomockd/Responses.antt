-- ===== src/Gnomockd/Responses.antt =====
-- The status of each response, and what was done before it.
use gnomock.Base.{
  Text, ◌≡◌, ◌⊎◌, inl, inr, none, some, List, [], ◌∷◌, arith, ℕ, ◌≢◌, Option-cases, refl,
}
use gnomock.Container.{docker_id, parse_id}
use gnomock.Engine.{World, History, container_stop, request, pipe}
use gnomock.Engine.Actions.{
  ok, value, failed, ended, Tried-cases, returned, refused, panicked, hung, err,
}
use gnomock.Engine.Trace.{Made}
use gnomock.Errors.{GoError, error_code, preset_not_found, invalid_start, start_failed}
use gnomock.Options.{Options, Setting, with_options, with_log_writer, with_context}
use gnomock.Registry
use gnomock.Registry.{Registry, AnyPreset}
use gnomock.Session.Create.{Started, start}
use gnomock.Session.Stop.Calls.{stop_all_single}
use gnomock.Gnomockd.{
  Codec, Response, handle_start, start_decoded, respond_to_start, handle_stop, stop_decoded,
  respond_with_error, known_by, container_body, broken_body,
}
use gnomock.Session.Stop.{stop_all}

module _ (w : World) (fuel : ℕ) (codec : Codec) where
  abbrev pub request_options : ℕ → Options → List Setting
  request_options id o = with_options o ∷ with_log_writer (pipe id) ∷ with_context (request id) ∷ []

  -- The outcome of a start, as the response to it.
  abbrev pub Answered : History → Started → Response → Type 0
  Answered g s r =
      ((s.failure ≡ none)
        × (codec.encode s.container ≡ value tt)
        × (r.status ≡ 200)
        × (((codec.writes_body g ≡ value tt) × (r.body ≡ container_body s.container))
            ⊎ ((e : GoError) × (codec.writes_body g ≡ failed e)
                × (r.body ≡ broken_body s.container (start_failed e s.container)))))
      ⊎ (((s.failure ≢ none) ⊎ (codec.encode s.container ≢ value tt)) × (r.status ≡ 500))

  respond_to_start-Answered :
      (s : Started) (h g : History) (r : Response)
      → respond_to_start w fuel codec s h ≡ (ok r, g)
      → Answered g s r × (g ≡ h)
  unfolding respond_to_start respond_with_error error_code
  respond_to_start-Answered s h g r e = elim (Tried-cases (codec.writes_body h)) [
    | inl (u, q) ↦ ground arith
    | inr (x, q) ↦ ground arith
  ]

  start_decoded-Answered :
      (id : ℕ) (p : AnyPreset) (o : Options) (state : p.State) (h g : History) (r : Response)
      → start_decoded w fuel codec id p (o, state) h ≡ (ok r, g)
      → (s : Started) × (start w fuel p.preset state (request_options id o) h ≡ (ok s, g))
        × Answered g s r
  unfolding start_decoded
  start_decoded-Answered id p o state h g r e =
      elim (ended (start w fuel p.preset state (request_options id o) h)) [
        | returned s k q ↦
            let (a, same) = respond_to_start-Answered s k g r (ground arith) in (s, ground arith, a)
        | refused x k q ↦ absurd (ground arith)
        | panicked k q ↦ absurd (ground arith)
        | hung k q ↦ absurd (ground arith)
      ]

  bad_request : (e : GoError) → (respond_with_error (invalid_start e)).status ≡ 400
  unfolding respond_with_error error_code
  bad_request e = refl

  unknown_preset : (name : Text) → (respond_with_error (preset_not_found name)).status ≡ 404
  unfolding respond_with_error error_code
  unknown_preset name = refl

  -- Every response to a request to start: 404 and no call, when no preset has the name; 400 and no
  -- call, when the body is no valid request; otherwise the preset was started with the options of
  -- the request, and the status is 200 with the container when the start had no error and the
  -- container could be encoded, also if it then could not be written to the end, and 500 when not.
  pub handle_start_responses :
      (registry : Registry) (id : ℕ) (name body : Text) (h g : History) (r : Response)
      → handle_start w fuel codec registry id name body h ≡ (ok r, g)
      → ((Registry.find registry name ≡ none) × (r.status ≡ 404) × (g ≡ h))
        ⊎ ((p : AnyPreset) × (Registry.find registry name ≡ some p)
            × (((e : GoError) × (codec.decode_start body p ≡ failed e) × (r.status ≡ 400) × (g ≡ h))
                ⊎ ((o : Options) × (state : p.State) × (s : Started) × (codec.decode_start body p
                      ≡ value (o, state))
                    × (start w fuel p.preset state (request_options id o) h ≡ (ok s, g))
                    × Answered g s r)))
  unfolding handle_start
  handle_start_responses registry id name body h g r e =
      elim (Option-cases (Registry.find registry name)) [
        | inl q ↦ inl (q, ground (arith, unknown_preset name), ground arith)
        | inr (p, q) ↦ elim (Tried-cases (codec.decode_start body p)) [
          | inr (x, d) ↦ inr (p, q, inl (x, d, ground (arith, bad_request x), ground arith))
          | inl ((o, state), d) ↦
              let (s, t, a) = start_decoded-Answered id p o state h g r (ground arith) in
              inr (p, q, inr (o, state, s, d, t, a))
        ]
      ]

  -- Every response to a request to stop: 400 and no call, when the body is no valid request or has
  -- no identifier; otherwise the container of the identifier was stopped, and the status is 200 when
  -- this had no error, and then docker was asked to stop the container that the identifier names, and
  -- 500 when it had one.
  pub handle_stop_responses :
      (body : Text) (h g : History) (r : Response)
      → handle_stop w fuel codec body h ≡ (ok r, g)
      → (((e : GoError) × (codec.decode_stop body ≡ failed e) × (r.status ≡ 400) × (g ≡ h))
          ⊎ ((codec.decode_stop body ≡ value []) × (r.status ≡ 400) × (g ≡ h)))
        ⊎ ((id : Text) × (codec.decode_stop body ≡ value id)
            × (id ≢ [])
            × (((stop_all w (some (known_by w fuel codec id) ∷ []) h ≡ (ok tt, g))
                  × (r.status ≡ 200)
                  × Made (container_stop (parse_id id).0) g)
                ⊎ ((x : GoError) × (stop_all w (some (known_by w fuel codec id) ∷ []) h
                      ≡ (err x, g))
                    × (r.status ≡ 500))))
  unfolding handle_stop stop_decoded respond_with_error error_code docker_id
  handle_stop_responses body h g r e = elim (Tried-cases (codec.decode_stop body)) [
    | inr (x, d) ↦ inl (inl (x, d, ground arith, ground arith))
    | inl ([], d) ↦ inl (inr (d, ground arith, ground arith))
    | inl (c ∷ id, d) ↦
        let asked = known_by w fuel codec (c ∷ id) in
        inr (
          c ∷ id,
          d,
          λ same. ground arith,
          elim (ended (stop_all w (some asked ∷ []) h)) [
            | returned u k q ↦
                inl (ground arith, ground arith, ground (arith, stop_all_single w asked h))
            | refused x k q ↦ inr (x, ground arith, ground arith)
            | panicked k q ↦ absurd (ground arith)
            | hung k q ↦ absurd (ground arith)
          ],
        )
  ]
