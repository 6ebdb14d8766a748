-- ===== src/Server/Listing.antt =====
-- `rmt_server_create_device_list` in server/rmt_server.c against the samples that DDS hands to it: which devices the
-- client gets, and with what information.
use mathlib.Core.Option
use rmt_library.Common.{
  Bool, ℕ, ◌+◌, ◌%◌, ◌<◌, ◌^◌, ◌≡◌, ◌==◌, refl, Bool-cases, Option, none, some, List, [], ◌∷◌,
  length, arith, find, is_neg, Option-cases, inl, inr, if◌then◌else◌, ◌∙◌, ap, sym, ℤ,
}
use rmt_library.Types.{DeviceMsg}
use rmt_library.Transport.{Taken, dev_info}
use rmt_library.Transport.Receive.{samples, stopped, stop_code, deliver, try_recv_lem}
use rmt_library.DevInfo.{Node, Registry, has_id, add_device}
use rmt_library.DevInfo.Ids.{ids, Distinct}
use rmt_library.DevInfo.Loops.{infos}
use rmt_library.DevInfo.Lookup.{lookup, lookup-add_device, list_devices-all}
use rmt_library.DevInfo.Status.{Good}
use rmt_library.Server.{Server, update_devices, create_device_list}
use rmt_library.Server.Api.{IsUp, guarded_running}
use rmt_library.Server.Turn.Poll.{update_devices-Good}

-- the number of all devices, and their array or a null pointer
abbrev pub number_and_array : (ℕ → Bool) → Registry → ℕ × Option (List DeviceMsg)
number_and_array malloc_ok r = (
  length (infos r.dev_head),
  if malloc_ok (length (infos r.dev_head)) then some (infos r.dev_head) else none,
)

-- the information of a device in an array
abbrev pub find_info : ℕ → List DeviceMsg → Option DeviceMsg
find_info j = find (λ d. d.device_id == j)

-- the last sample of a device
abbrev pub latest : ℕ → List (Taken DeviceMsg) → Option DeviceMsg
latest j [] = none
latest j (t ∷ ts) = elim (latest j ts) [
  | some later ↦ some later
  | none ↦ if t.sample.device_id == j then some t.sample else none
]

find_info-infos :
    (j : ℕ) (nodes : List Node)
    → find_info j (infos nodes) ≡ Option.map (λ n. n.info) (find (has_id j) nodes)
find_info-infos j [] = refl
find_info-infos j (n ∷ rest) = ground (arith, find_info-infos j rest)

add_device-info :
    (fresh : Node) (msg : DeviceMsg) (handle j : ℕ) (r : Registry)
    → find_info j (infos (add_device fresh msg handle r).dev_head)
      ≡ (if msg.device_id == j then some msg else find_info j (infos r.dev_head))
unfolding lookup
add_device-info fresh msg handle j r =
    find_info-infos j (add_device fresh msg handle r).dev_head
    ∙ ap (Option.map (λ n. n.info)) (lookup-add_device fresh msg handle j r)
    ∙ elim (Bool-cases (msg.device_id == j)) [
      | inl same ↦ rw same refl
      | inr other ↦ rw (other, find_info-infos j r.dev_head) refl
    ]

deliver-latest :
    (fresh : Node) (ts : List (Taken DeviceMsg)) (j : ℕ) (r r' : Registry)
    → deliver (λ t x. some (add_device fresh t.sample t.publication_handle x)) ts r ≡ some r'
    → find_info j (infos r'.dev_head)
      ≡ elim (latest j ts) [ none ↦ find_info j (infos r.dev_head) | some m ↦ some m ]
deliver-latest fresh [] j r r' e =
    let r_is : r ≡ r' = cc e in ap (λ x. find_info j (infos x.dev_head)) (sym r_is)
deliver-latest fresh (t ∷ ts) j r r' e =
    deliver-latest fresh ts j (add_device fresh t.sample t.publication_handle r) r' e
    ∙ elim (Option-cases (latest j ts)) [
      | inl gone ↦ rw gone (
          add_device-info fresh t.sample t.publication_handle j r
          ∙ elim (Bool-cases (t.sample.device_id == j)) [
            | inl same ↦ rw same refl
            | inr other ↦ rw other refl
          ])
      | inr (later, e') ↦ rw e' refl
    ]

-- what a receive delivers, from what it leaves behind
update_devices-deliver :
    (fresh : Node) (takes : List (Taken DeviceMsg)) (r r' : Registry) {code : ℤ}
    → update_devices fresh takes r ≡ some (code, r')
    → deliver (λ t x. some (add_device fresh t.sample t.publication_handle x)) (samples takes) r
      ≡ some r'
unfolding update_devices
update_devices-deliver fresh takes r r' e = ground (
  arith,
  e,
  try_recv_lem dev_info (λ msg handle x. some (add_device fresh msg handle x)) takes r,
  Option-cases
      (deliver (λ t x. some (add_device fresh t.sample t.publication_handle x)) (samples takes) r),
)

-- the call, from what its update comes to
pub create_device_list_run :
    (malloc_ok : ℕ → Bool) (fresh : Node) (takes : List (Taken DeviceMsg)) {s : Server}
    {r : Registry}
    → IsUp s
    → Good r
    → update_devices fresh takes s.files.registry ≡ some (stop_code (stopped takes), r)
    → create_device_list malloc_ok fresh takes s
      ≡ some (
        if is_neg (stop_code (stopped takes)) then none else some (number_and_array malloc_ok r),
        record s { files = record s.files { registry = r } },
      )
unfolding create_device_list
create_device_list_run malloc_ok fresh takes {s} {r} up g e =
    guarded_running (some (0, none))
      (if is_neg (stop_code (stopped takes)) then none else some (number_and_array malloc_ok r)) _ s
      (record s { using_api = (s.using_api + 1) % 2 ^ 64; files = record s.files { registry = r } })
      up.running up.fits (ground (arith, up.there, e, list_devices-all malloc_ok g.valid g.fits))
      refl

-- `rmt_server_create_device_list` of a running server with a transport and a valid registry, which stays below 2^32
-- devices. If the take that ends the receive is not an error, then the client gets the number of the devices and an
-- array of all of them, or a null pointer if there is no memory for it; no ID stands in it twice, and the
-- entry of an ID is the last sample of this device, or the one from before where no sample came. If
-- the take is an error, neither the array nor the number is ever set.
-- In both cases the samples before that take are in the registry, and the rest of the server is
-- as it was.
pub create_device_list_up :
    (malloc_ok : ℕ → Bool) (fresh : Node) (takes : List (Taken DeviceMsg)) {s : Server}
    → IsUp s
    → Good s.files.registry
    → length s.files.registry.dev_head + length takes < 2 ^ 32
    → (r : Registry) × (create_device_list malloc_ok fresh takes s
        ≡ some (
          if is_neg (stop_code (stopped takes)) then none else some (number_and_array malloc_ok r),
          record s { files = record s.files { registry = r } },
        ))
      × Good r
      × Distinct (ids r.dev_head)
      × ((j : ℕ)
          → find_info j (infos r.dev_head) ≡ elim (latest j (samples takes)) [
            | none ↦ find_info j (infos s.files.registry.dev_head)
            | some m ↦ some m
          ])
create_device_list_up malloc_ok fresh takes {s} up g fits =
    let (r, e, g', n) = update_devices-Good fresh takes g fits in
    (
      r,
      create_device_list_run malloc_ok fresh takes up g' e,
      g',
      g'.valid.distinct,
      λ j.
          deliver-latest fresh (samples takes) j s.files.registry r
            (update_devices-deliver fresh takes s.files.registry r e),
    )
