-- ===== src/Presets/Memcached/Values.antt =====
-- What a successful initialization of memcached has set.
use gnomock.Base.{[], ◌∷◌, Text, ◌≡◌, ◌++◌, arith, ◌∙◌, ap, refl, inr, inl}
use gnomock.Engine.Actions.{ok, Reply-cases}
use gnomock.Presets.Memcached.{P, Client, set_each, initf, set_call, entries, format_bytes}
use gnomock.Container.{Container, address}
use gnomock.Engine.{History}
use gnomock.Base.Assoc.{Assoc}
use gnomock.Ports.{default_port}
use gnomock.Engine.Success.{bind-ok}

-- The entries of the second map after those of the first.
abbrev pub both_set : Text → Assoc Text → History → History
both_set addr [] h = h
both_set addr ((k, v) ∷ rest) h = both_set addr rest (set_call addr k v ∷ h)

both_set-append :
    (addr : Text) (m n : Assoc Text) (h : History)
    → both_set addr n (both_set addr m h) ≡ both_set addr (m ++ n) h
both_set-append addr [] n h = refl
both_set-append addr ((k, v) ∷ m) n h = both_set-append addr m n (set_call addr k v ∷ h)

module _ (s : Client) where
  set_each-both_set :
      (show : Text → Text) (addr : Text) (values : Assoc Text) (h h' : History)
      → set_each s show addr values h ≡ (ok tt, h')
      → h' ≡ both_set addr values h
  unfolding set_each
  set_each-both_set show addr [] h h' e = ground arith
  set_each-both_set show addr ((k, v) ∷ rest) h h' e = elim (Reply-cases (s.sets addr k v h)) [
    | inr (x, p) ↦ absurd (ground arith)
    | inl (u, p) ↦ set_each-both_set show addr rest (set_call addr k v ∷ h) h' (ground arith)
  ]

  -- A successful initialization has set every entry of the map of bytes and then every entry of the
  -- map of texts, so that a text replaces the bytes of the same key, and has called nothing else.
  pub initf-both_set :
      (p : P) (c : Container) (h h' : History)
      → initf s p c h ≡ (ok tt, h')
      → h' ≡ both_set (address c default_port) (entries p.byte_values ++ entries p.values) h
  unfolding initf
  initf-both_set p c h h' e =
      let addr = address c default_port in
      let (u, g, q, r) =
        bind-ok (set_each s format_bytes addr (entries p.byte_values))
          (λ _. set_each s (λ v. v) addr (entries p.values)) h h' tt e in
      set_each-both_set (λ v. v) addr (entries p.values) g h' r
      ∙ ap (both_set addr (entries p.values))
          (set_each-both_set format_bytes addr (entries p.byte_values) h g q)
      ∙ both_set-append addr (entries p.byte_values) (entries p.values) h
