-- ===== src/Tests/Client.antt =====
-- The theorems on the client's functions, with the small toxcore.
use tox4j.Base.{true, some, none, [], ◌∷◌, ◌≡◌, ◌↔◌, ◌⊎◌, refl, arith}
use tox4j.Base.Effect.{Returns}
use tox4j.Core.Enums.{Bytes, tox_proxy_type_none}
use tox4j.Core.Friends.{new_tox_friend_add}
use tox4j.Core.Friends.Outcomes.{AddSpec, friend_add_lem}
use tox4j.Core.Self.{new_tox_self_set_name}
use tox4j.Core.Self.RoundTrip.{KeepsNames, KeptSpec, name_round_trip}
use tox4j.Core.Registration.{register_friend}
use tox4j.Core.Registration.Ranges.{register_range, register_friend_lem}
use tox4j.Core.Lifecycle.{ToxOptions, check_proxy, new_tox_new}
use tox4j.Core.Lifecycle.Creation.{IsHost, CreationSpec, check_proxy_iff, new_tox_new_lem}
use tox4j.Jni.Events.{CoreEvents}
use tox4j.Tests.{api, session}

abbrev hello : Bytes
hello = 104 ∷ 105 ∷ []

friend_add_lem_example :
    Returns
      (new_tox_friend_add api (some hello) (some hello) 2 (session []))
      (AddSpec api (some hello) (some hello) 2 (session []))
friend_add_lem_example = friend_add_lem api (some hello) (some hello) 2 (session [])

keeps_names : KeepsNames api
keeps_names t name h n = (refl, refl, refl)

name_round_trip_example :
    Returns (new_tox_self_set_name api (some hello) 2 (session [])) (KeptSpec api hello)
name_round_trip_example =
    name_round_trip api hello (session []) keeps_names (omega arith) (λ e. ground arith)

register_friend_lem_example :
    register_friend api 1 hello
    ≡ register_range
        (api.tox_lossless_packet_registerhandler 1)
        160
        32
        (register_range (api.tox_lossy_packet_registerhandler 1) 200 55 hello)
register_friend_lem_example = register_friend_lem api 1 hello

abbrev options : ToxOptions
options = record {
  ipv6_enabled = true;
  udp_enabled = true;
  proxy_type = 1;
  proxy_address = some hello;
  proxy_port = 3128;
}

check_proxy_iff_example :
    (check_proxy options ≡ none) ↔ ((1 ≡ tox_proxy_type_none) ⊎ IsHost (some hello) 3128)
check_proxy_iff_example = check_proxy_iff options

-- The saved data does not load.
new_tox_new_lem_example :
    CreationSpec (new_tox_new {U = CoreEvents} api true (some options) (some hello) 1)
new_tox_new_lem_example = new_tox_new_lem CoreEvents api true (some options) (some hello) 1
