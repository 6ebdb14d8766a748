-- ===== src/Tests/Networks.antt =====
-- Runs of common/network.c over four interfaces.
use rmt_library.Common.{
  length, arith, ◌<◌, ◌≤◌, ◌≡◌, refl, Bool, true, false, some, List, [], ◌∷◌, ◌++◌, Bytes, All,
}
use rmt_library.Network.Text.{read_mac, read_mac-get_mac}
use rmt_library.Network.{get_mac, Interface, Mac, select_interface, generate_id, priority, id_of}
use rmt_library.Network.Choice.{select_interface_lem, generate_id-first}

abbrev pub interface : Bytes → Bool → Mac → Interface
interface name up mac = record {
  name = name;
  is_up = up;
  is_running = up;
  is_loopback = false;
  mac = mac;
}

abbrev pub adlink : Mac
adlink = record { b0 = 0; b1 = 48; b2 = 100; b3 = 1; b4 = 2; b5 = 3 }

abbrev pub other : Mac
other = record { b0 = 8; b1 = 0; b2 = 0; b3 = 4; b4 = 5; b5 = 6 }

abbrev pub eth : Interface
eth = interface (b'e' ∷ (b'0' ∷ [])) true other

abbrev pub wlan : Interface
wlan = interface (b'w' ∷ (b'0' ∷ [])) true other

abbrev lan : Interface
lan = interface (b'e' ∷ (b'1' ∷ [])) false adlink

select_interface_lem_test :
    (select_interface (eth ∷ lan ∷ wlan ∷ eth ∷ []) ≡ some (b'w' ∷ (b'0' ∷ [])))
    × (select_interface (eth ∷ lan ∷ []) ≡ some (b'e' ∷ (b'0' ∷ [])))
select_interface_lem_test =
    select_interface_lem (eth ∷ lan ∷ []) (eth ∷ []) wlan (refl, (refl, tt)) refl

generate_id-first_example :
    (i : Interface) × (before : List Interface) × (after : List Interface) × ((eth ∷ lan ∷ wlan
        ∷ [])
      ≡ before ++ (i ∷ after))
    × All (λ j. priority j < priority i) before
    × All (λ j. priority j ≤ priority i) after
    × (generate_id (eth ∷ lan ∷ wlan ∷ []) ≡ id_of i.mac)
generate_id-first_example = generate_id-first (eth ∷ lan ∷ wlan ∷ []) (cc)

read_mac-get_mac_test :
    (length (get_mac adlink 20) ≡ 17) × (read_mac (get_mac adlink 20) ≡ some adlink)
read_mac-get_mac_test =
    read_mac-get_mac adlink 20
      (record {
        b0 = omega arith;
        b1 = omega arith;
        b2 = omega arith;
        b3 = omega arith;
        b4 = omega arith;
        b5 = omega arith;
      })
      (omega arith)
