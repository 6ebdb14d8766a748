-- ===== src/Server/Order.antt =====
-- The receive of device infos in server/devinfo_server.c, as server/rmt_server.c calls it: the order of the samples.
use mathlib.Core.List.{Perm}
use mathlib.Core.List.Perm
use mathlib.Core.Quot.{sound}
use rmt_library.Common.{
  ℕ, ◌+◌, ◌<◌, ◌^◌, ◌≡◌, refl, Bool, if◌then◌else◌, none, some, List, [], ◌∷◌, length, map, arith,
  length-map, length-Perm,
}
use rmt_library.Types.{DeviceMsg, DeviceInfo}
use rmt_library.Transport.{Taken, dev_info}
use rmt_library.Transport.Receive.{samples, stopped, stop_code, deliver, try_recv_lem}
use rmt_library.DevInfo.{Node, Registry, add_device, list_devices}
use rmt_library.DevInfo.Ids.{Distinct}
use rmt_library.DevInfo.Loops.{infos}
use rmt_library.DevInfo.Inv.{IsValid}
use rmt_library.DevInfo.Lookup.{list_devices-all}
use rmt_library.DevInfo.Order.{
  Arrival, arrive, senders, devices, arrive-Perm, arrive-IsValid, length-arrive, infos-Perm,
}
use rmt_library.Server.{update_devices}

abbrev pub arrival : Node → Taken DeviceMsg → Arrival
arrival fresh t = record { fresh = fresh; msg = t.sample; handle = t.publication_handle }

abbrev pub arrivals : Node → List (Taken DeviceMsg) → List Arrival
arrivals fresh takes = map (arrival fresh) (samples takes)

deliver-arrive :
    (fresh : Node) (ts : List (Taken DeviceMsg)) (r : Registry)
    → deliver (λ t x. some (add_device fresh t.sample t.publication_handle x)) ts r
      ≡ some (arrive (map (arrival fresh) ts) r)
deliver-arrive fresh [] r = refl
deliver-arrive fresh (t ∷ ts) r =
    deliver-arrive fresh ts (add_device fresh t.sample t.publication_handle r)

update_devices-arrive :
    (fresh : Node) (takes : List (Taken DeviceMsg)) (r : Registry)
    → update_devices fresh takes r
      ≡ some (stop_code (stopped takes), arrive (arrivals fresh takes) r)
unfolding update_devices
update_devices-arrive fresh takes r = ground (
  arith,
  try_recv_lem dev_info (λ msg handle r'. some (add_device fresh msg handle r')) takes r,
  deliver-arrive fresh (samples takes) r,
)

-- The order in which DDS hands in the device infos does not matter: if two receives take the same samples, in any
-- order, and each from another device, and there are fewer than 2^32 devices in all, then from a valid registry
-- both end with the same devices up to the order of the list, with the same counter, and a
-- client gets, where there is memory for them, two lists that are permutations of each other.
pub updates_any_order :
    (malloc_ok : ℕ → Bool) (fresh : Node) (takes takes' : List (Taken DeviceMsg)) {r : Registry}
    → Perm (samples takes) (samples takes')
    → Distinct (senders (arrivals fresh takes))
    → IsValid r
    → length r.dev_head + length (samples takes) < 2 ^ 32
    → (s s' : Registry) × (l l' : List DeviceInfo) × (update_devices fresh takes r
        ≡ some (stop_code (stopped takes), s))
      × (update_devices fresh takes' r ≡ some (stop_code (stopped takes'), s'))
      × (devices s ≡ devices s')
      × (s.dev_num ≡ s'.dev_num)
      × (list_devices malloc_ok s ≡ some (length l, if malloc_ok (length l) then some l else none))
      × (list_devices malloc_ok s'
          ≡ some (length l', if malloc_ok (length l') then some l' else none))
      × Perm l l'
updates_any_order malloc_ok fresh takes takes' {r} p d v few =
    let heard = arrivals fresh takes in
    let heard' = arrivals fresh takes' in
    let q = arrive-Perm (Perm.map (arrival fresh) p) d v in
    let w = arrive-IsValid heard v in
    let w' = arrive-IsValid heard' v in
    let same = length-Perm q in
    let n = length-arrive heard r in
    let m = length-map (arrival fresh) (samples takes) in
    let few' : length (arrive heard r).dev_head < 2 ^ 32 = omega (arith, few, n, m) in
    (
      arrive heard r,
      arrive heard' r,
      infos (arrive heard r).dev_head,
      infos (arrive heard' r).dev_head,
      update_devices-arrive fresh takes r,
      update_devices-arrive fresh takes' r,
      sound q,
      omega (arith, w.counted, w'.counted, same),
      list_devices-all malloc_ok w few',
      list_devices-all malloc_ok w' (omega (arith, few', same)),
      infos-Perm q,
    )
