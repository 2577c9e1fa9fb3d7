-- ===== src/Docker/Create/Retry.antt =====
-- The creation of a container whose name is taken.
use gnomock.Base.{Text, List, ◌≡◌, arith, ◌∷◌, [], Option, some, none, ◌⊎◌}
use gnomock.Ports.{NamedPorts}
use gnomock.Options.{Options}
use gnomock.Errors.{GoError, error}
use gnomock.Engine.{
  World, History, reply, refuse, CreateRequest, network_list, container_create, container_remove,
}
use gnomock.Engine.Actions.{panic}
use gnomock.Docker.Conflict.{duplicate_of}
use gnomock.Docker.Create.{create_container, create_request, network_config}

module _ (w : World) (image : Text) (ports : NamedPorts) (cfg : Options) (h : History) where
  -- The requests for the container, with a network or without one.
  abbrev pub request_in : Option (Text × Text) → CreateRequest
  request_in network = create_request w image ports cfg network

  abbrev pub plain_request : CreateRequest
  plain_request = create_request w image ports cfg none

  -- A duplicate with this identifier was removed at `k`, and then the creation was repeated without a
  -- network.
  abbrev pub Replaced : Text → Text → History → History → Type 0
  Replaced old id k h' =
      (w.removes old k ≡ reply tt)
      × (w.creates plain_request (container_remove old ∷ k) ≡ reply id)
      × (h' ≡ container_create plain_request ∷ container_remove old ∷ k)

  -- From `g` on, the container was created in this network, or docker has refused this because of a
  -- duplicate, which was replaced.
  abbrev pub Placed : Option (Text × Text) → Text → History → History → Type 0
  Placed net id g h' =
      ((w.creates (request_in net) g ≡ reply id) × (h' ≡ container_create (request_in net) ∷ g))
      ⊎ ((e : GoError) × (old : Text) × (w.creates (request_in net) g ≡ refuse e)
          × (duplicate_of (error e) ≡ some old)
          × Replaced old id (container_create (request_in net) ∷ g) h')

  -- The options name no network; or docker has found networks for the first name that they give, and
  -- the first of these is taken.
  abbrev pub Chosen : List Text → Option (Text × Text) → History → Type 0
  Chosen [] net g = (net ≡ none) × (g ≡ h)
  Chosen (name ∷ names) net g =
      (found : Text × Text) × (others : List (Text × Text)) × (w.networks name h
        ≡ reply (found ∷ others))
      × (net ≡ some found)
      × (g ≡ network_list name ∷ h)

  -- A network that docker does not know makes the program panic.
  pub create_container_panics :
      (net : Text) (nets : List Text)
      → cfg.networks ≡ net ∷ nets
      → w.networks net h ≡ reply []
      → create_container w image ports cfg h ≡ (panic, network_list net ∷ h)
  unfolding create_container network_config
  create_container_panics net nets n p = ground arith
