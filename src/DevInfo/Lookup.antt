-- ===== src/DevInfo/Lookup.antt =====
-- server/devinfo_server.c as a map from device IDs to nodes: what each operation does to an entry.
use mathlib.Core.Option
use native.Mathlib.Decide.{ℕ_discrete}
use rmt_library.Common.{
  Bool, ap₂, ==_iff, All, ℕ, ◌^◌, ◌<◌, ◌≡◌, ◌≢◌, refl, Option, none, some, List, [], ◌∷◌, arith,
  length, take, drop, find, if◌then◌else◌, Bool-cases, Option-cases, inl, inr, sym, ◌∙◌, ap, ◌==◌,
  pos, minus_one, take_all, drop_all,
}
use mathlib.Core.List.{append-nil}
use rmt_library.Types.{DeviceMsg, TransferStatus, TransferResult, status_agent_error, empty_result}
use rmt_library.DevInfo.{
  Node, Registry, has_id, has_internal_id, fill, add_device, del_device, set_status, get_status,
  list_devices,
}
use rmt_library.DevInfo.Ids.{
  ids, Distinct, any, write_first, find-write_first, find-remove_first, any-eq-find, All-of-any,
}
use rmt_library.DevInfo.Loops.{put_status, infos, length-infos}
use rmt_library.DevInfo.Ops.{
  add_device_lem, del_first_lem, set_status_lem, get_status_lem, list_devices_lem,
}
use rmt_library.DevInfo.Inv.{IsValid}

-- The abstract view: the entry of each ID.
unfoldable pub lookup : ℕ → Registry → Option Node
lookup id s = find (has_id id) s.dev_head

-- the node that `add_device` writes: the old one of this ID, or a fresh one
abbrev pub old_or : Node → Option Node → Node
old_or fresh none = fresh
old_or fresh (some n) = n

-- After a message the entry of its ID holds the message and the handle, on the node of that ID or on a
-- fresh one; each other entry is as it was.
pub lookup-add_device :
    (fresh : Node) (msg : DeviceMsg) (handle id : ℕ) (s : Registry)
    → lookup id (add_device fresh msg handle s) ≡ (
        if msg.device_id == id
        then some (fill msg handle (old_or fresh (lookup msg.device_id s)))
        else lookup id s)
unfolding lookup
lookup-add_device fresh msg handle id s = ground (
  arith,
  add_device_lem fresh msg handle s,
  any-eq-find (has_id msg.device_id) s.dev_head,
  find-write_first msg.device_id id (fill msg handle) s.dev_head (λ n e. refl),
)

-- In a valid registry a lost publication takes out the first node of its handle and no other; a
-- handle that no node holds changes nothing.
pub lookup-del_device :
    (handle id : ℕ) {s : Registry}
    → IsValid s
    → lookup id (del_device handle s) ≡ elim (find (has_internal_id handle) s.dev_head) [
      | none ↦ lookup id s
      | some n ↦ if n.info.device_id == id then none else lookup id s
    ]
unfolding lookup del_device
lookup-del_device handle id {s} v =
    rw del_first_lem (elim (Option-cases (find (has_internal_id handle) s.dev_head)) [
      | inl e ↦ rw e refl
      | inr (n, e) ↦ rw e (find-remove_first (has_internal_id handle) id s.dev_head v.distinct e)
    ])

-- Below 2^32 devices the counter is the length of the list.
num-eq-length :
    {s : Registry} → IsValid s → length s.dev_head < 2 ^ 32 → s.dev_num ≡ length s.dev_head
num-eq-length v h = omega (arith, v.counted)

take-num :
    {s : Registry} → IsValid s → length s.dev_head < 2 ^ 32 → take s.dev_num s.dev_head ≡ s.dev_head
take-num {s} v h = take_all s.dev_num s.dev_head (omega (arith, num-eq-length v h))

drop-num : {s : Registry} → IsValid s → length s.dev_head < 2 ^ 32 → drop s.dev_num s.dev_head ≡ []
drop-num {s} v h = drop_all s.dev_num s.dev_head (omega (arith, num-eq-length v h))

-- Below 2^32 devices, the status of an ID is that of its entry, and for an unknown ID it is an agent
-- error with the empty result.
pub get_status-lookup :
    (id : ℕ) {s : Registry}
    → IsValid s
    → length s.dev_head < 2 ^ 32
    → get_status id s
      ≡ some (elim (lookup id s) [
        | none ↦ (status_agent_error, empty_result)
        | some n ↦ (n.agent_transfer_status, n.transfer_result)
      ])
unfolding lookup
get_status-lookup id {s} v h =
    get_status_lem id s (omega (arith, num-eq-length v h))
    ∙ rw (take-num v h) (elim (Option-cases (find (has_id id) s.dev_head)) [
      | inl e ↦ rw e refl
      | inr (n, e) ↦ rw e refl
    ])

-- In a valid registry of fewer than 2^32 devices, setting a status returns 0 for a known ID and -1
-- for an unknown one; the entry of the ID, if there is one, gets the status and the result, and
-- each other entry stays.
pub set_status-lookup :
    (id : ℕ) (status : TransferStatus) (result : TransferResult) {s : Registry}
    → IsValid s
    → length s.dev_head < 2 ^ 32
    → (s' : Registry) × (set_status id status result s
        ≡ some (elim (lookup id s) [ none ↦ minus_one | some n ↦ pos 0 ], s'))
      × ((j : ℕ)
          → lookup j s'
            ≡ (if id == j then Option.map (put_status status result) (lookup j s) else lookup j s))
unfolding lookup
set_status-lookup id status result {s} v h = (
  record s { dev_head = write_first (has_id id) (put_status status result) s.dev_head },
  set_status_lem id status result s (omega (arith, num-eq-length v h))
      ∙ rw (take-num v h, drop-num v h, append-nil, any-eq-find (has_id id) s.dev_head)
          (elim (Option-cases (find (has_id id) s.dev_head)) [
            | inl e ↦ rw e refl
            | inr (n, e) ↦ rw e refl
          ]),
  λ j.
      find-write_first id j (put_status status result) s.dev_head
        (λ n e. (==_iff n.info.device_id id).0 e),
)

-- Below 2^32 devices, the number that a client gets is that of the devices, and the array, if there is memory
-- for it, holds every device, newest first.
pub list_devices-all :
    (malloc_ok : ℕ → Bool) {s : Registry}
    → IsValid s
    → length s.dev_head < 2 ^ 32
    → list_devices malloc_ok s
      ≡ some (
        length (infos s.dev_head),
        if malloc_ok (length (infos s.dev_head)) then some (infos s.dev_head) else none,
      )
list_devices-all malloc_ok {s} v h =
    list_devices_lem malloc_ok s (omega (arith, num-eq-length v h))
    ∙ ap₂ (λ k l. some (k, if malloc_ok k then some l else none))
        (num-eq-length v h ∙ sym (length-infos s.dev_head)) (ap infos (take-num v h))

-- where no node has the ID, none has a handle that only a node of that ID may have
find-no_handle :
    (id old : ℕ) (nodes : List Node)
    → All (λ y. y ≢ id) (ids nodes)
    → All (λ n. n.internal_id ≡ old → n.info.device_id ≡ id) nodes
    → find (has_internal_id old) nodes ≡ none
find-no_handle id old [] a h = refl
find-no_handle id old (n ∷ rest) a h = ground (arith, h.0, a.0, find-no_handle id old rest a.1 h.1)

-- no node is left under a handle that only the node of a replaced ID had
find-old_handle :
    (msg : DeviceMsg) (old handle : ℕ) (nodes : List Node)
    → old ≢ handle
    → Distinct (ids nodes)
    → All (λ n. n.internal_id ≡ old → n.info.device_id ≡ msg.device_id) nodes
    → find (has_internal_id old) (write_first (has_id msg.device_id) (fill msg handle) nodes) ≡ none
find-old_handle msg old handle [] ne d h = refl
find-old_handle msg old handle (n ∷ rest) ne d h =
    elim (ℕ_discrete n.info.device_id msg.device_id) [
      | yes e ↦ ground (arith, find-no_handle msg.device_id old rest (rw e at d.0) h.1)
      | no e ↦ ground (arith, h.0, find-old_handle msg old handle rest ne d.1 h.1)
    ]

-- An agent that comes back under a new publication handle outlives its old publication: if in a
-- valid registry only its own entry had the old handle, the loss of the old publication, reported
-- after the new message, removes no device.
pub reregister_survives :
    (fresh : Node) (msg : DeviceMsg) (old handle : ℕ) {s : Registry}
    → IsValid s
    → old ≢ handle
    → All (λ n. n.internal_id ≡ old → n.info.device_id ≡ msg.device_id) s.dev_head
    → del_device old (add_device fresh msg handle s) ≡ add_device fresh msg handle s
unfolding del_device
reregister_survives fresh msg old handle {s} v ne h =
    rw (del_first_lem (has_internal_id old) (add_device fresh msg handle s), gone) refl
  where
    gone : find (has_internal_id old) (add_device fresh msg handle s).dev_head ≡ none
    gone = rw add_device_lem (elim (Bool-cases (any (has_id msg.device_id) s.dev_head)) [
      | inl known ↦ rw known (find-old_handle msg old handle s.dev_head ne v.distinct h)
      | inr new ↦ rw new (
          ground (
            arith,
            find-no_handle msg.device_id old s.dev_head (All-of-any msg.device_id s.dev_head new) h,
          ))
    ])
