-- ===== src/Tests/Docker.antt =====
-- Images, creation, reuse and the network.
use gnomock.Base.{
  lit, ◌≡◌, refl, true, none, some, [], ◌∷◌, contains_byte, has_suffix, text_eq, pos, equal_fold,
  ◌≢◌, arith, ◌↔◌, is_empty, false, Text, List,
}
use gnomock.Engine.{World, reply, refuse, background, History}
use gnomock.Tests.Worlds.{calm, web}
use gnomock.Docker.Images.{is_listed, is_existing_local_image}
use gnomock.Docker.Images.Local.{is_listed-TakenForLocal, TakenForLocal}
use gnomock.Docker.Create.{
  create_container, prepare_container, network_config, has_local_image, pull_unless,
}
use gnomock.Docker.Create.Pulls.{prepare_container-HasImage, HasImage}
use gnomock.Docker.Start.{start_container, find_reusable_container}
use gnomock.Container.{Container}
use gnomock.Engine.Actions.{Result, pure, stuck}
use gnomock.Docker.Start.Reuse.{start_container-Reused, Reused}
use gnomock.Docker.Network.Bound.{wait_for_container_network-IsReady, IsReady}
use gnomock.Options.{Options, initial}
use gnomock.Errors.{GoError, plain}
use gnomock.Docker.Network.{wait_for_container_network, inspect_network, bound_named_ports}
use gnomock.Ports.{tcp, find}
use gnomock.Docker.Client.{select_done, host_addr}
use gnomock.Base.Decimal.{atoi}
use gnomock.Base.Assoc.{insert}
use gnomock.Base.Int.{int_eq}
use gnomock.Docker.Network.Ends.{wait_for_container_network-ends}

-- The local image is `e/app:1`, and another one is asked for.
is_listed-TakenForLocal_example :
    (is_listed (lit "docker.io/alice/app:1") ((lit "e/app:1" ∷ []) ∷ []) ≡ true)
    ↔ TakenForLocal (lit "docker.io/alice/app:1") ((lit "e/app:1" ∷ []) ∷ [])
is_listed-TakenForLocal_example =
    is_listed-TakenForLocal (lit "docker.io/alice/app:1") ((lit "e/app:1" ∷ []) ∷ [])

abbrev local_first : Options
local_first = record initial { use_local_images_first = true }

-- The state before the creation, and the creation.
abbrev Prepared : Type 0
Prepared =
    (g : History) × HasImage calm (lit "docker.io/library/web:1") web local_first [] g
    × (create_container calm (lit "docker.io/library/web:1") web local_first g
        ≡ prepare_container calm (lit "docker.io/library/web:1") web local_first [])

prepare_container-HasImage_example : Prepared
unfolding prepare_container has_local_image pull_unless is_existing_local_image is_listed
    create_container network_config contains_byte has_suffix text_eq lit
prepare_container-HasImage_example =
    prepare_container-HasImage calm (lit "docker.io/library/web:1") web local_first []
      (lit "0123456789ab")
      (prepare_container calm (lit "docker.io/library/web:1") web local_first []).1 refl

abbrev conflict : GoError
conflict = plain (
    lit
      "Conflict. The container name \"/c\" is already in use by container \"0a\". You have to remove (or rename) that container to be able to reuse that name.")

-- The first creation of a container meets a duplicate.
abbrev taken : World
taken = record calm {
  creates = λ request h. elim request.network [ none ↦ reply (lit "1") | some n ↦ refuse conflict ];
}

abbrev in_net : Options
in_net = record initial { networks = lit "net" ∷ [] }

abbrev replaced_run : History
replaced_run = (create_container taken (lit "web:1") web in_net []).1

abbrev reusing : Options
reusing = record initial { reuse = true; container_name = lit "c" }

abbrev reused_run : Result Container × History
reused_run = start_container calm 5 (λ id cfg. pure none) background (lit "web:1") web reusing []

abbrev reused : Container
reused = record {
  id = lit "0123456789ab";
  host = lit "127.0.0.1";
  ports = (lit "web", tcp (pos 32768)) ∷ [];
  gateway = lit "172.17.0.1";
  on_stop = none;
}

start_container-Reused_example :
    (is_empty (lit "c") ≡ false)
    × (ids : List Text) × (calm.lists (lit "c") (lit "web:1") [] ≡ reply ids)
    × Reused calm 5
        (λ id cfg. pure none)
        background
        (lit "web:1")
        web
        reusing
        []
        ids
        reused
        reused_run.1
unfolding start_container find_reusable_container lit wait_for_container_network select_done
    inspect_network bound_named_ports atoi find tcp insert host_addr
start_container-Reused_example =
    start_container-Reused calm 5 (λ id cfg. pure none) background (lit "web:1") web reusing []
      reused reused_run.1 refl refl

abbrev bound_web : Container
bound_web = record {
  id = lit "01";
  host = lit "127.0.0.1";
  ports = (lit "web", tcp (pos 32768)) ∷ [];
  gateway = lit "172.17.0.1";
  on_stop = none;
}

wait_for_container_network-IsReady_example : IsReady calm web (lit "01") bound_web
unfolding wait_for_container_network select_done inspect_network bound_named_ports lit tcp atoi find
    insert host_addr equal_fold int_eq
wait_for_container_network-IsReady_example =
    wait_for_container_network-IsReady calm web 5 background (lit "01") [] bound_web refl

wait_for_container_network-ends_example :
    (wait_for_container_network calm 4 background (lit "01") web []).0 ≢ stuck
wait_for_container_network-ends_example =
    wait_for_container_network-ends calm (lit "01") web background 3 (λ h le. ground arith) 3 []
      (omega arith)
