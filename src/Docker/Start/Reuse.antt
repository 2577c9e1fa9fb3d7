-- ===== src/Docker/Start/Reuse.antt =====
-- Reusing a container that runs already.
use gnomock.Base.{
  Text, List, [], ◌≡◌, true, false, arith, ℕ, zero, suc, is_empty, ◌∷◌, none, some, inl, inr,
  Bool-cases,
}
use mathlib.Core.Path.{subst}
use gnomock.Container.{Container}
use gnomock.Docker.Start.{
  start_container, find_reusable_container, first_running, start_new_container, Cleanup,
}
use gnomock.Engine.{World, Context, History, reply, container_list, container_inspect, select}
use gnomock.Engine.Actions.{ok, Reply-cases, Tried-cases, ended, returned, refused, panicked, hung}
use gnomock.Ports.{NamedPorts}
use gnomock.Options.{Options}
use gnomock.Docker.Client.{select_done}
use gnomock.Docker.Network.{wait_for_container_network, inspect_network, bound_named_ports}

module _ (w : World) (ctx : Context) (id : Text) (ports : NamedPorts) where
  -- Rounds of the wait for a network: a look at the context and an inspection.
  abbrev pub inspected : ℕ → History → History
  inspected zero h = h
  inspected (suc n) h = inspected n (container_inspect id ∷ select ctx ∷ h)

  inspect_network-calls :
      (h : History) → (inspect_network w id ports h).1 ≡ container_inspect id ∷ h
  unfolding inspect_network
  inspect_network-calls h = elim (Reply-cases (w.inspects id h)) [
    | inr (e, p) ↦ ground arith
    | inl (json, p) ↦ elim (Tried-cases (bound_named_ports w json ports)) [
      | inl (bound, q) ↦ ground arith
      | inr (e, q) ↦ ground arith
    ]
  ]

  inspect_network-id :
      (c : Container) (h : History) → (inspect_network w id ports h).0 ≡ ok (some c) → c.id ≡ id
  unfolding inspect_network
  inspect_network-id c h e = elim (Reply-cases (w.inspects id h)) [
    | inr (x, p) ↦ absurd (ground arith)
    | inl (json, p) ↦ elim (Tried-cases (bound_named_ports w json ports)) [
      | inl (bound, q) ↦ ground arith
      | inr (x, q) ↦ absurd (ground arith)
    ]
  ]

  wait_for_container_network-inspected :
      (fuel : ℕ) (c : Container) (h h' : History)
      → wait_for_container_network w fuel ctx id ports h ≡ (ok c, h')
      → (c.id ≡ id) × (n : ℕ) × (h' ≡ inspected (suc n) h)
  unfolding wait_for_container_network select_done
  wait_for_container_network-inspected zero c h h' e = absurd (ground arith)
  wait_for_container_network-inspected (suc fuel) c h h' e = elim (Bool-cases (w.done ctx h)) [
    | inl over ↦ absurd (ground arith)
    | inr early ↦
        let calls = inspect_network-calls (select ctx ∷ h) in
        elim (ended (inspect_network w id ports (select ctx ∷ h))) [
          | returned (some d) g p ↦
              (inspect_network-id c (select ctx ∷ h) (ground arith), 0, ground arith)
          | returned none g p ↦
              let (same, n, more) =
                wait_for_container_network-inspected fuel c g h' (ground arith) in
              let now : g ≡ container_inspect id ∷ select ctx ∷ h = ground arith in
              (same, suc n, subst (λ k. h' ≡ inspected (suc n) k) now more)
          | refused x g p ↦ absurd (ground arith)
          | panicked g p ↦ absurd (ground arith)
          | hung g p ↦ absurd (ground arith)
        ]
  ]

module _ (w : World) (fuel : ℕ) (cleanup : Cleanup) (ctx : Context) (image : Text)
    (ports : NamedPorts) (cfg : Options) (h : History) where
  abbrev listed : History
  listed = container_list cfg.container_name image ∷ h

  -- The first container of the list was taken, and nothing was called but for the wait for its network;
  -- or the list was empty, and a new container was started.
  abbrev pub Reused : List Text → Container → History → Type 0
  Reused [] c h' =
      start_new_container w fuel cleanup ctx image ports cfg
        (container_list cfg.container_name image ∷ h)
      ≡ (ok c, h')
  Reused (id ∷ ids) c h' =
      (c.id ≡ id)
      × (n : ℕ) × (h'
          ≡ inspected w ctx id ports (suc n) (container_list cfg.container_name image ∷ h))

  -- With reuse, a start that succeeds has a name to look for. It takes the first container that runs
  -- under the name, and then no call is made but the list and the looks at the context and at this
  -- container: none is created or started, and there is no sidecar. Only if there is none, a new
  -- container is started.
  pub start_container-Reused :
      (c : Container) (h' : History)
      → cfg.reuse ≡ true
      → start_container w fuel cleanup ctx image ports cfg h ≡ (ok c, h')
      → (is_empty cfg.container_name ≡ false)
        × (ids : List Text) × (w.lists cfg.container_name image h ≡ reply ids)
        × Reused ids c h'
  unfolding start_container find_reusable_container first_running
  start_container-Reused c h' reuse e = elim (Bool-cases (is_empty cfg.container_name)) [
    | inl nameless ↦ absurd (ground arith)
    | inr named ↦ elim (Reply-cases (w.lists cfg.container_name image h)) [
      | inr (x, p) ↦ absurd (ground arith)
      | inl ([], p) ↦ (named, [], p, ground arith)
      | inl (id ∷ ids, p) ↦ elim (ended (wait_for_container_network w fuel ctx id ports listed)) [
        | returned d g q ↦ (
          named,
          id ∷ ids,
          p,
          wait_for_container_network-inspected w ctx id ports fuel c listed h' (ground arith),
        )
        | refused x g q ↦ absurd (ground arith)
        | panicked g q ↦ absurd (ground arith)
        | hung g q ↦ absurd (ground arith)
      ]
    ]
  ]
