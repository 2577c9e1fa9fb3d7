-- ===== src/Engine/Trace.antt =====
-- What a history says of the calls that were made.
use gnomock.Base.{List, [], ◌∷◌, ◌++◌, ◌⊎◌, ◌≡◌, ℕ, suc}
use gnomock.Engine.{Call, History, select}

-- The call is in the history.
abbrev pub Made : Call → History → Type 0
Made call [] = ⊥
Made call (c ∷ h) = (call ≡ c) ⊎ Made call h

-- The second history is the first with more calls on it.
abbrev pub Extends : History → History → Type 0
Extends h g = (new : List Call) × (g ≡ new ++ h)

-- The number of `select`s so far.
abbrev pub rounds : History → ℕ
rounds [] = 0
rounds (select ctx ∷ h) = suc (rounds h)
rounds (_ ∷ h) = rounds h
