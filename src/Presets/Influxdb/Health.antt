-- ===== src/Presets/Influxdb/Health.antt =====
-- When a health check of influxdb succeeds.
use gnomock.Engine.Actions.{ok, Reply-cases}
use gnomock.Presets.Influxdb.{
  P, Client, healthcheck, health_call, buckets_call, http_address, status_pass,
}
use gnomock.Container.{Container}
use gnomock.Engine.{History, reply}
use gnomock.Base.{
  ◌≡◌, ◌∷◌, ℕ, inr, ◌≤◌, arith, inl, Bool-cases, text_eq, ◌==◌, ◌∙◌, ap, text_eq_iff,
}

module _ (s : Client) where
  -- The server, asked with the token of the preset, passes and has a bucket of the organization of
  -- the preset.
  abbrev pub Passes : P → Container → History → Type 0
  Passes p c h =
      (s.health (http_address c) p.auth_token h ≡ reply status_pass)
      × (n : ℕ) × (1 ≤ n)
      × (s.buckets (http_address c) p.auth_token p.org
            (health_call (http_address c) p.auth_token ∷ h)
          ≡ reply n)

  -- A health check that succeeds has seen the server pass and a bucket of the organization exist,
  -- and has asked for these two things and for nothing else.
  pub healthcheck-Passes :
      (p : P) (c : Container) (h h' : History)
      → healthcheck s p c h ≡ (ok tt, h')
      → Passes p c h
        × (h'
            ≡ buckets_call (http_address c) p.auth_token p.org
              ∷ health_call (http_address c) p.auth_token
              ∷ h)
  unfolding healthcheck
  healthcheck-Passes p c h h' e =
      let addr = http_address c in
      elim (Reply-cases (s.health addr p.auth_token h)) [
        | inr (x, q) ↦ absurd (ground arith)
        | inl (status, q) ↦ elim (Bool-cases (text_eq status status_pass)) [
          | inr r ↦ absurd (ground arith)
          | inl r ↦
              elim (Reply-cases
                (s.buckets addr p.auth_token p.org (health_call addr p.auth_token ∷ h))) [
                  | inr (x, t) ↦ absurd (ground arith)
                  | inl (n, t) ↦ elim (Bool-cases (n == 0)) [
                    | inl z ↦ absurd (ground arith)
                    | inr z ↦ (
                      (q ∙ ap reply ((text_eq_iff status status_pass).0 r), n, ground arith, t),
                      ground arith,
                    )
                  ]
                ]
        ]
      ]
