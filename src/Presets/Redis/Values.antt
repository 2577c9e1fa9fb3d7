-- ===== src/Presets/Redis/Values.antt =====
-- What a successful initialization of redis has set.
use gnomock.Base.{[], ◌∷◌, Text, ◌≡◌, arith, inr, inl}
use gnomock.Engine.Actions.{ok, Reply-cases}
use gnomock.Presets.Redis.{Client, set_each, initf, set_call}
use gnomock.Base.Assoc.{Assoc}
use gnomock.Engine.{History}
use gnomock.Container.{Container, address}
use gnomock.Ports.{default_port}

-- One call for each entry.
abbrev pub all_set : Text → Assoc Text → History → History
all_set addr [] h = h
all_set addr ((k, v) ∷ rest) h = all_set addr rest (set_call addr k v ∷ h)

module _ (s : Client) where
  set_each-all_set :
      (addr : Text) (values : Assoc Text) (h h' : History)
      → set_each s addr values h ≡ (ok tt, h')
      → h' ≡ all_set addr values h
  unfolding set_each
  set_each-all_set addr [] h h' e = ground arith
  set_each-all_set addr ((k, v) ∷ rest) h h' e = elim (Reply-cases (s.sets addr k v h)) [
    | inr (x, p) ↦ absurd (ground arith)
    | inl (u, p) ↦ set_each-all_set addr rest (set_call addr k v ∷ h) h' (ground arith)
  ]

  -- A successful initialization has set every value of the map, in the order of its iteration, and
  -- has called nothing else.
  pub initf-all_set :
      (values : Assoc Text) (c : Container) (h h' : History)
      → initf s values c h ≡ (ok tt, h')
      → h' ≡ all_set (address c default_port) values h
  unfolding initf
  initf-all_set values c h h' e = set_each-all_set (address c default_port) values h h' e
