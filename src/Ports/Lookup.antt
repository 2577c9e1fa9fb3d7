-- ===== src/Ports/Lookup.antt =====
-- NamedPorts.Find against NamedPorts.Get.
use gnomock.Base.{
  ℤ, Text, text_eq_iff, equal_fold, int_eq, ◌≡◌, true, false, none, some, [], ◌∷◌, ◌&&◌, arith, ◌≢◌,
}
use gnomock.Base.Int.{int_eq_iff}
use gnomock.Base.Assoc.{lookup, NodupKeys}
use gnomock.Ports.{Port, NamedPorts, get, find}

-- A found name is a key of the map, and its port has the number and, case aside, the protocol.
pub get-find :
    (ports : NamedPorts) (proto : Text) (number : ℤ) (name : Text)
    → NodupKeys ports
    → find ports proto number ≡ some name
    → (equal_fold proto (get ports name).protocol ≡ true)
      × ((get ports name).port ≡ number)
      × (lookup name ports ≡ some (get ports name))
unfolding find get lookup
get-find [] proto number name u h = cc
get-find ((j, q) ∷ ports) proto number name (fresh, u) h = ground (
  arith,
  get-find ports proto number name u,
  text_eq_iff j name,
  text_eq_iff j j,
  int_eq_iff number q.port,
)

-- When no name is found, no port of the map has that number and protocol.
pub find-none :
    (ports : NamedPorts) (proto : Text) (number : ℤ) (name : Text) (p : Port)
    → find ports proto number ≡ none
    → lookup name ports ≡ some p
    → (equal_fold proto p.protocol && int_eq number p.port) ≡ false
unfolding find lookup
find-none [] proto number name p h e = cc
find-none ((j, q) ∷ ports) proto number name p h e =
    ground (arith, find-none ports proto number name p)

-- What is found is a name of the map.
pub lookup-find :
    (ports : NamedPorts) (proto : Text) (number : ℤ) (name : Text)
    → find ports proto number ≡ some name
    → lookup name ports ≢ none
unfolding find lookup
lookup-find [] proto number name h = cc
lookup-find ((j, q) ∷ ports) proto number name h =
    ground (arith, lookup-find ports proto number name, text_eq_iff j j)
