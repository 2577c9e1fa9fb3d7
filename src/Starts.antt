-- ===== src/Starts.antt =====
-- gnomock.go and the presets together: what a start with a preset has done to the container.
pub mod Queues
pub mod Databases
pub mod Documents
use gnomock.Engine.Actions.{ok}
use gnomock.Engine.{World, History}
use gnomock.Session.Create.{Started, start, Preset}
use gnomock.Session.Create.Ready.{start-Ready}
use gnomock.Session.Wait.{env_aware_clone}
use gnomock.Options.{Options, Setting, Callback, build_config, apply_all, initial}
use gnomock.Container.{Container}
use gnomock.Base.{ℕ, List, ◌≡◌, ◌++◌, ◌∷◌, none, some, [], refl, ap, ◌∙◌, sym}

-- The caller's options do not replace the initialization that the preset configures.
abbrev pub KeepsInit : List Setting → Type 0
KeepsInit opts = (o : Options) → (apply_all opts o).init ≡ o.init

apply_all-append :
    (xs ys : List Setting) (o : Options) → apply_all (xs ++ ys) o ≡ apply_all ys (apply_all xs o)
apply_all-append [] ys o = refl
apply_all-append (x ∷ xs) ys o = apply_all-append xs ys (x o)

-- A start without an error has, as its last calls, run the initialization that the options of the
-- preset configure, which succeeded.
pub start-initialized :
    {S : Type 0} (w : World) (fuel : ℕ) (p : Preset S) (state : S) (opts : List Setting)
    (init : Callback) (h h' : History) (s : Started)
    → start w fuel p state opts h ≡ (ok s, h')
    → s.failure ≡ none
    → KeepsInit opts
    → (build_config (p.options state).0).init ≡ init
    → (c : Container) × (k : History) × (s.container ≡ some c)
      × (init (env_aware_clone w c) k ≡ (ok tt, h'))
unfolding build_config
start-initialized w fuel p state opts init h h' s e none_failed keeps same =
    let (c, g, k, there, healthy, done) = start-Ready w fuel p state opts h h' s e none_failed in
    let is : (build_config ((p.options state).0 ++ opts)).init ≡ init =
      ap (λ o. o.init) (apply_all-append (p.options state).0 opts initial)
      ∙ keeps (build_config (p.options state).0)
      ∙ same in
    (c, k, there, ap (λ f. f (env_aware_clone w c) k) (sym is) ∙ done)
