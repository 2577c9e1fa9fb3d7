-- ===== src/Parallel.antt =====
-- parallel.go: starting several presets together.
pub mod Results
use gnomock.Base.{Option, none, some, List, [], ◌∷◌, ◌++◌, ℕ, zero, suc, get_elem?, map}
use gnomock.Container.{Container}
use gnomock.Errors.{GoError}
use gnomock.Engine.Actions.{M, pure, ◌>>=◌}
use gnomock.Session.Create.{Started}

-- The slice of containers and the error of the group.
pub record Group : Type 0 where
  pub containers : List (Option Container)
  pub failure : Option GoError

-- Parallel.Start: the presets that were added, each as its call of Start.
unfoldable pub add : List (M Started) → M Started → List (M Started)
add presets p = presets ++ p ∷ []

-- The error group keeps the first error that is returned.
abbrev pub first_failure : Option GoError → Option GoError → Option GoError
first_failure none later = later
first_failure (some e) later = some e

-- containers[i] = c
unfoldable pub set : ℕ → Option Container → List (Option Container) → List (Option Container)
set i c [] = []
set zero c (x ∷ xs) = c ∷ xs
set (suc i) c (x ∷ xs) = x ∷ set i c xs

-- The goroutine of a preset has got its result.
unfoldable pub finish : ℕ → Started → Group → Group
unfolding set
finish i s g = record {
  containers = set i s.container g.containers;
  failure = first_failure g.failure s.failure;
}

-- The goroutines, in the order in which their starts come, given by the indexes of the presets. The
-- calls of two starts do not interleave.
unfoldable pub run_each : List (M Started) → List ℕ → Group → M Group
run_each presets [] g = pure g
run_each presets (i ∷ order) g = elim (get_elem? presets i) [
  | none ↦ run_each presets order g
  | some p ↦ do s ← p; run_each presets order (finish i s g)
]

-- make([]*Container, len(b.presets))
abbrev pub no_containers : List (M Started) → Group
no_containers presets = record { containers = map (λ p. none) presets; failure = none }

-- Parallel.Go, for an order of the goroutines.
unfoldable pub go : List ℕ → List (M Started) → M Group
go order presets = run_each presets order (no_containers presets)
