-- ===== src/Container.antt =====
-- container.go: a container as its creator sees it, and its identifier.
pub mod Identifiers
use gnomock.Base.{
  ℕ, ℤ, pos, Text, lit, int_eq, Option, none, some, List, [], ◌∷◌, ◌++◌, Bool, true, ltb, length,
  take, split, if◌then◌else◌,
}
use gnomock.Base.Decimal.{itoa}
use gnomock.Ports
use gnomock.Ports.{NamedPorts, default_port}

-- `on_stop` stands for the closure that closeLogReader returns: it names the container whose log
-- stream it closes and waits for.
pub record Container : Type 0 where
  pub id : Text
  pub host : Text
  pub ports : NamedPorts
  pub gateway : Text
  pub on_stop : Option Text

unfoldable pub port : Container → Text → ℤ
unfolding Ports.get
port c name = (Ports.get c.ports name).port

unfoldable pub address : Container → Text → Text
unfolding port int_eq itoa
address c name = let p = port c name in if int_eq p (pos 0) then [] else c.host ++ (b':' ∷ itoa p)

unfoldable pub default_address : Container → Text
unfolding address default_port
default_address c = address c default_port

-- DefaultPort
unfoldable pub default_port_of : Container → ℤ
unfolding port default_port
default_port_of c = port c default_port

truncate : Text → Text
truncate id = if ltb 10 (length id) then take 10 id else id

unfoldable pub generate_id : Text → Text → Text
unfolding truncate
generate_id id sidecar = truncate id ++ (b'-' ∷ truncate sidecar)

two_parts : Text → List Text → Text × Text
two_parts input (id ∷ sidecar ∷ []) = (id, sidecar)
two_parts input _ = (input, [])

unfoldable pub parse_id : Text → Text × Text
unfolding two_parts split
parse_id input = two_parts input (split b'-' input)

unfoldable pub docker_id : Container → Text
unfolding parse_id
docker_id c = (parse_id c.id).0
