-- ===== src/Docker/Network/Bound.antt =====
-- The ports of a container whose network is ready.
use gnomock.Base.{
  Text, ◌≡◌, ◌≢◌, arith, refl, List, [], none, text_eq_iff, some, ◌∷◌, ℕ, suc, zero, Bool-cases,
  inr, inl, length, ◌==◌,
}
use gnomock.Base.Assoc.{
  Assoc, lookup, insert, NodupKeys, SubKeys, insert-NodupKeys, lookup-insert, SubKeys-full,
}
use gnomock.Ports.{NamedPorts, Port}
use gnomock.Ports.Lookup.{lookup-find}
use gnomock.Docker.Network.{
  bound_port, bound_loop, bound_named_ports, inspect_network, wait_for_container_network,
}
use gnomock.Engine.{World, Binding, Inspection, History, Context, select}
use gnomock.Engine.Actions.{
  value, ok, Reply-cases, Tried-cases, ended, returned, refused, panicked, hung,
}
use gnomock.Docker.Client.{select_done, host_addr}
use gnomock.Container.{Container}
use mathlib.Core.Path.{subst}

-- Named ports that are found again among those that were asked for.
pub record IsBoundOf (named bound : NamedPorts) : Type 0 where
  pub nodup : NodupKeys bound
  pub keys : SubKeys bound named

module _ (w : World) (named : NamedPorts) where
  bound_port-key :
      (port : Text) (bindings : List Binding) (name : Text) (p : Port)
      → bound_port w named port bindings ≡ value (some (name, p))
      → lookup name named ≢ none
  unfolding bound_port
  bound_port-key port [] name p h = cc
  bound_port-key port (b ∷ bindings) name p h =
      ground (arith, lookup-find named (w.port_proto port) (w.port_int port) name)

  add_bound-IsBoundOf :
      (name : Text) (p : Port) (bound : NamedPorts)
      → lookup name named ≢ none
      → IsBoundOf named bound
      → IsBoundOf named (insert name p bound)
  add_bound-IsBoundOf name p bound k b = record {
    nodup = insert-NodupKeys name p bound b.nodup;
    keys = λ j h. ground (arith, lookup-insert name j p bound, text_eq_iff name j, b.keys j);
  }

  bound_loop-IsBoundOf :
      (rest : Assoc (List Binding)) (bound : NamedPorts) (result : NamedPorts)
      → IsBoundOf named bound
      → bound_loop w named rest bound ≡ value result
      → IsBoundOf named result
  unfolding bound_loop
  bound_loop-IsBoundOf [] bound result b h = subst (IsBoundOf named) (cc) b
  bound_loop-IsBoundOf ((port, bindings) ∷ rest) bound result b h =
      elim (Tried-cases (bound_port w named port bindings)) [
        | inr (e, q) ↦ absurd (ground arith)
        | inl (none, q) ↦ bound_loop-IsBoundOf rest bound result b (ground arith)
        | inl (some (name, p), q) ↦
            bound_loop-IsBoundOf rest (insert name p bound) result
              (add_bound-IsBoundOf name p bound (bound_port-key port bindings name p q) b)
              (ground arith)
      ]

  bound_named_ports-IsBoundOf :
      (json : Inspection) (result : NamedPorts)
      → bound_named_ports w json named ≡ value result
      → IsBoundOf named result
  unfolding bound_named_ports
  bound_named_ports-IsBoundOf json result h =
      bound_loop-IsBoundOf json.bound [] result
        (record { nodup = tt; keys = λ k n. absurd (n (unfold lookup in refl)) }) h

  -- A round that is ready gives the container, and a host port for each named port.
  pub record IsReady (id : Text) (c : Container) : Type 0 where
    pub id_lem : c.id ≡ id
    pub host_lem : c.host ≡ host_addr w
    pub complete : SubKeys named c.ports
    pub exact : SubKeys c.ports named

  abbrev bound_container : Text → Inspection → NamedPorts → Container
  bound_container id json bound = record {
    id = id;
    host = host_addr w;
    ports = bound;
    gateway = json.gateway;
    on_stop = none;
  }

  inspect_network-IsReady :
      (id : Text) (h : History) (c : Container)
      → (inspect_network w id named h).0 ≡ ok (some c)
      → IsReady id c
  unfolding inspect_network
  inspect_network-IsReady id h c e = elim (Reply-cases (w.inspects id h)) [
    | inr (x, q) ↦ absurd (ground arith)
    | inl (json, q) ↦ elim (Tried-cases (bound_named_ports w json named)) [
      | inr (x, r) ↦ absurd (ground arith)
      | inl (bound, r) ↦ elim (Bool-cases (length bound == length named)) [
        | inr few ↦ absurd (ground arith)
        | inl all ↦
            let b = bound_named_ports-IsBoundOf json bound r in
            subst (IsReady id) {x = bound_container id json bound} (ground arith) (record {
              id_lem = refl;
              host_lem = refl;
              complete = SubKeys-full bound named b.nodup b.keys (ground arith);
              exact = b.keys;
            })
      ]
    ]
  ]

  -- When the wait for the network of a container ends without an error, the container has the
  -- identifier that was asked for and the address of the docker host, and it has a port under each
  -- name that was asked for and under no other name.
  pub wait_for_container_network-IsReady :
      (fuel : ℕ) (ctx : Context) (id : Text) (h : History) (c : Container)
      → (wait_for_container_network w fuel ctx id named h).0 ≡ ok c
      → IsReady id c
  unfolding wait_for_container_network select_done
  wait_for_container_network-IsReady zero ctx id h c e = cc
  wait_for_container_network-IsReady (suc fuel) ctx id h c e = elim (Bool-cases (w.done ctx h)) [
    | inl over ↦ absurd (ground arith)
    | inr early ↦ elim (ended (inspect_network w id named (select ctx ∷ h))) [
      | returned none g p ↦ wait_for_container_network-IsReady fuel ctx id g c (ground arith)
      | returned (some d) g p ↦ inspect_network-IsReady id (select ctx ∷ h) c (ground arith)
      | refused x g p ↦ absurd (ground arith)
      | panicked g p ↦ absurd (ground arith)
      | hung g p ↦ absurd (ground arith)
    ]
  ]
