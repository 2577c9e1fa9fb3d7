-- ===== src/Docker/Network/Ends.antt =====
-- The wait for the network ends with its context.
use gnomock.Base.{
  Text, ◌≢◌, ℕ, ◌≤◌, ◌≡◌, true, ◌∷◌, ◌+◌, suc, inr, arith, inl, Bool-cases, some, ap, Option, sym,
  ◌∙◌, zero, none,
}
use gnomock.Docker.Network.{wait_for_container_network, inspect_network, bound_named_ports}
use gnomock.Engine.Trace.{rounds}
use gnomock.Engine.{World, History, Context, container_inspect, select}
use gnomock.Ports.{NamedPorts}
use gnomock.Docker.Client.{select_done}
use gnomock.Engine.Actions.{
  stuck, Reply-cases, Tried-cases, ended, returned, Result, refused, panicked, hung,
}
use gnomock.Container.{Container}

module _ (w : World) (id : Text) (ports : NamedPorts) where
  -- One inspection returns, and makes one call.
  inspect_network-returns :
      (h : History)
      → ((inspect_network w id ports h).0 ≢ stuck)
        × ((inspect_network w id ports h).1 ≡ container_inspect id ∷ h)
  unfolding inspect_network
  inspect_network-returns h = elim (Reply-cases (w.inspects id h)) [
    | inr (e, p) ↦ (λ s. ground arith, ground arith)
    | inl (json, p) ↦ elim (Tried-cases (bound_named_ports w json ports)) [
      | inl (bound, q) ↦ (λ s. ground arith, ground arith)
      | inr (e, q) ↦ (λ s. ground arith, ground arith)
    ]
  ]

  -- If the context is done after `n` rounds, then fuel for `n` rounds more than those already made
  -- is enough: the wait returns, with a container or with an error.
  pub wait_for_container_network-ends :
      (ctx : Context) (n : ℕ)
      → ((h : History) → n ≤ rounds h → w.done ctx h ≡ true)
      → (fuel : ℕ) (h : History) → n ≤ fuel + rounds h
      → (wait_for_container_network w (suc fuel) ctx id ports h).0 ≢ stuck
  unfolding wait_for_container_network select_done
  wait_for_container_network-ends ctx n over zero h le s = ground (arith, over h (omega arith))
  wait_for_container_network-ends ctx n over (suc fuel) h le s =
      let (returns, calls) = inspect_network-returns (select ctx ∷ h) in
      elim (Bool-cases (w.done ctx h)) [
        | inl found ↦ absurd (ground arith)
        | inr early ↦ elim (ended (inspect_network w id ports (select ctx ∷ h))) [
          | returned (some c) g p ↦ absurd (ground arith)
          | returned none g p ↦
              wait_for_container_network-ends ctx n over fuel g
                (let kept : rounds g ≡ suc (rounds h) =
                    ap rounds
                      (ap (λ (m : Result (Option Container) × History). m.1) (sym p) ∙ calls) in
                  omega arith)
                (ground arith)
          | refused x g p ↦ absurd (ground arith)
          | panicked g p ↦ absurd (ground arith)
          | hung g p ↦ absurd (ground arith)
        ]
      ]
