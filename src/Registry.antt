-- ===== src/Registry.antt =====
-- internal/registry: presets by name.
use gnomock.Base.{Text, Option, some, ◌≡◌, if◌then◌else◌, text_eq}
use gnomock.Base.Assoc.{Assoc, lookup, insert, lookup-insert}
use gnomock.Session.Create.{Preset}

-- A preset with its current state.
pub record AnyPreset : Type 1 where
  pub State : Type 0
  pub preset : Preset State
  pub state : State

-- presetFactory: each call gives a new preset in its first state.
abbrev pub Registry : Type 1
Registry = Assoc AnyPreset

unfoldable pub register : Text → AnyPreset → Registry → Registry
register name p registry = insert name p registry

-- Find; `none` is nil
unfoldable pub find : Registry → Text → Option AnyPreset
find registry name = lookup name registry

-- A preset is found under the name by which it was registered last, and registering it changes
-- what is found under no other name.
pub find-register :
    (name other : Text) (p : AnyPreset) (registry : Registry)
    → find (register name p registry) other
      ≡ (if text_eq name other then some p else find registry other)
unfolding find register
find-register name other p registry = lookup-insert name other p registry
