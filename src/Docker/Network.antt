-- ===== src/Docker/Network.antt =====
-- docker.go: exposedPorts, portBindings, boundNamedPorts and waitForContainerNetwork.
pub mod Bound
pub mod Ends
use gnomock.Base.{
  ℕ, zero, suc, ℤ, pos, Text, lit, ltb_ℤ, text_eq, any, length, Bool, Option, none, some, List, [],
  ◌∷◌, ◌++◌, map, ◌==◌, if◌then◌else◌,
}
use gnomock.Base.Assoc.{Assoc, insert}
use gnomock.Base.Decimal.{itoa, atoi}
use gnomock.Ports
use gnomock.Ports.{Port, NamedPorts, find}
use gnomock.Container.{Container}
use gnomock.Errors.{GoError, plain, wrap, port_not_found}
use gnomock.Engine.{World, Context, Binding, Inspection, container_inspect}
use gnomock.Engine.Actions.{
  M, ask, Tried, value, failed, rethrow, pure, fail, hang, wrapping, ◌>>=◌,
}
use gnomock.Docker.Client.{select_done, host_addr, is_in_docker}

-- fmt.Sprintf("%d/%s", port.Port, port.Protocol)
unfoldable pub container_port : Port → Text
container_port p = itoa p.port ++ (b'/' ∷ p.protocol)

-- A key of a set: listed once.
add_key : Text → List Text → List Text
add_key k ks = if any (text_eq k) ks then ks else k ∷ ks

unfoldable pub exposed_ports : NamedPorts → List Text
unfolding add_key
exposed_ports [] = []
exposed_ports ((name, p) ∷ ports) = add_key (container_port p) (exposed_ports ports)

module _ (w : World) where
  -- The host port that a binding asks for; an empty text leaves the choice to docker.
  unfoldable pub wanted_host_port : NamedPorts → Text → Text
  wanted_host_port ports port = elim (find ports (w.port_proto port) (w.port_int port)) [
    | none ↦ []
    | some name ↦
        let named = Ports.get ports name in
        if ltb_ℤ (pos 0) named.host_port then itoa named.host_port else []
  ]

  unfoldable pub binding_addr : Text
  binding_addr = if is_in_docker w then lit "0.0.0.0" else host_addr w

  unfoldable pub port_bindings : List Text → NamedPorts → Assoc (List Binding)
  port_bindings exposed ports =
      map
        (λ port.
          (port, record { host_ip = binding_addr; host_port = wanted_host_port ports port } ∷ []))
        exposed

  -- The body of the loop: `none` is `continue`.
  bound_port : NamedPorts → Text → List Binding → Tried (Option (Text × Port))
  bound_port named port [] = value none
  bound_port named port (b ∷ bindings) = elim (atoi b.host_port) [
    | none ↦ failed (
        wrap (lit "invalid host port value '" ++ (b.host_port ++ lit "'"))
          (plain (lit "strconv.Atoi: parsing " ++ b.host_port)))
    | some number ↦ elim (find named (w.port_proto port) (w.port_int port)) [
      | none ↦ failed (
          wrap (lit "can't find port " ++ (w.port_proto port ++ (b'/' ∷ itoa (w.port_int port))))
            port_not_found)
      | some name ↦
          value
            (some (name, record { protocol = w.port_proto port; port = number; host_port = pos 0 }))
    ]
  ]

  abbrev add_bound : Option (Text × Port) → NamedPorts → NamedPorts
  add_bound none bound = bound
  add_bound (some (name, p)) bound = insert name p bound

  bound_loop : NamedPorts → Assoc (List Binding) → NamedPorts → Tried NamedPorts
  unfolding bound_port
  bound_loop named [] bound = value bound
  bound_loop named ((port, bindings) ∷ rest) bound = elim (bound_port named port bindings) [
    | failed e ↦ failed e
    | value found ↦ bound_loop named rest (add_bound found bound)
  ]

  unfoldable pub bound_named_ports : Inspection → NamedPorts → Tried NamedPorts
  unfolding bound_loop
  bound_named_ports json named = bound_loop named json.bound []

  -- One round of the loop after a tick: `none` means that not all ports are bound yet.
  unfoldable pub inspect_network : Text → NamedPorts → M (Option Container)
  inspect_network id ports = do
    json ←
        wrapping (lit "can't inspect container " ++ id) (ask (container_inspect id) (w.inspects id))
    bound ← wrapping (lit "can't find bound ports") (rethrow (bound_named_ports json ports))
    pure (
        if length bound == length ports
        then some (record {
          id = id;
          host = host_addr w;
          ports = bound;
          gateway = json.gateway;
          on_stop = none;
        })
        else none)

  unfoldable pub wait_for_container_network : ℕ → Context → Text → NamedPorts → M Container
  wait_for_container_network zero ctx id ports = hang
  wait_for_container_network (suc fuel) ctx id ports = do
    over ← select_done w ctx
    if over then fail (plain (lit "container network is unavailable after timeout")) else do
      ready ← inspect_network id ports
      elim ready [ some c ↦ pure c | none ↦ wait_for_container_network fuel ctx id ports ]
