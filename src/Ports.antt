-- ===== src/Ports.antt =====
-- ports.go: named ports and the lookups in them.
pub mod Lookup
use gnomock.Base.{
  ℤ, pos, Text, lit, equal_fold, int_eq, Option, none, some, [], ◌∷◌, ◌&&◌, if◌then◌else◌,
}
use gnomock.Base.Assoc.{Assoc, lookup}

-- DefaultPort
unfoldable pub default_port : Text
default_port = lit "default"

pub record Port : Type 0 where
  pub protocol : Text
  pub port : ℤ
  pub host_port : ℤ

-- The zero value of the struct.
abbrev pub zero_port : Port
zero_port = record { protocol = []; port = pos 0; host_port = pos 0 }

-- A map; the order is that of an iteration over it.
abbrev pub NamedPorts : Type 0
NamedPorts = Assoc Port

unfoldable pub tcp : ℤ → Port
tcp number = record { protocol = lit "tcp"; port = number; host_port = pos 0 }

unfoldable pub default_tcp : ℤ → NamedPorts
unfolding default_port
default_tcp number =
    (default_port, record { protocol = lit "tcp"; port = number; host_port = pos 0 }) ∷ []

-- NamedPorts.Get: a missing name gives the zero value.
unfoldable pub get : NamedPorts → Text → Port
unfolding lookup
get ports name = elim (lookup name ports) [ none ↦ zero_port | some p ↦ p ]

-- NamedPorts.Find: `none` stands for ErrPortNotFound.
unfoldable pub find : NamedPorts → Text → ℤ → Option Text
unfolding equal_fold int_eq
find [] proto number = none
find ((name, p) ∷ ports) proto number =
    if equal_fold proto p.protocol && int_eq number p.port
    then some name
    else find ports proto number
