-- ===== src/DevInfo/Ops.antt =====
-- Each operation of server/devinfo_server.c by one equation over the operations of `Ids`.
use rmt_library.Common.{
  refl, inr, inl, Bool-cases, ℕ, ◌≤◌, ◌≡◌, Bool, none, some, ◌∷◌, ◌++◌, arith, length, take, drop,
  find, if◌then◌else◌, pos, minus_one,
}
use rmt_library.Types.{DeviceMsg, TransferStatus, TransferResult}
use rmt_library.DevInfo.{
  Node, Registry, has_id, fill, incr32, decr32, add_device, del_first, set_status, get_status,
  status_of, list_devices,
}
use rmt_library.DevInfo.Ids.{any, write_first, remove_first}
use rmt_library.DevInfo.Loops.{
  put_status, infos, replace_lem, unlink_lem, set_loop_lem, get_loop_lem, copy_infos_lem,
}

pub add_device_lem :
    (fresh : Node) (msg : DeviceMsg) (handle : ℕ) (s : Registry)
    → add_device fresh msg handle s ≡ (
        if any (has_id msg.device_id) s.dev_head
        then record s { dev_head = write_first (has_id msg.device_id) (fill msg handle) s.dev_head }
        else record { dev_head = fill msg handle fresh ∷ s.dev_head; dev_num = incr32 s.dev_num })
unfolding add_device
add_device_lem fresh msg handle s = ground (arith, replace_lem msg handle s.dev_head)

pub del_first_lem :
    (p : Node → Bool) (s : Registry)
    → del_first p s ≡ elim (find p s.dev_head) [
      | none ↦ s
      | some n ↦ record { dev_head = remove_first p s.dev_head; dev_num = decr32 s.dev_num }
    ]
unfolding del_first
del_first_lem p s = ground (arith, unlink_lem p s.dev_head)

pub set_status_lem :
    (id : ℕ) (status : TransferStatus) (result : TransferResult) (s : Registry)
    → s.dev_num ≤ length s.dev_head
    → set_status id status result s
      ≡ some (
        if any (has_id id) (take s.dev_num s.dev_head) then pos 0 else minus_one,
        record s {
          dev_head =
              write_first (has_id id) (put_status status result) (take s.dev_num s.dev_head)
              ++ drop s.dev_num s.dev_head;
        },
      )
unfolding set_status
set_status_lem id status result s h = rw (set_loop_lem id status result s.dev_num s.dev_head h)

pub get_status_lem :
    (id : ℕ) (s : Registry)
    → s.dev_num ≤ length s.dev_head
    → get_status id s ≡ some (status_of (find (has_id id) (take s.dev_num s.dev_head)))
unfolding get_status
get_status_lem id s h = rw (get_loop_lem id s.dev_num s.dev_head h)

pub list_devices_lem :
    (malloc_ok : ℕ → Bool) (s : Registry)
    → s.dev_num ≤ length s.dev_head
    → list_devices malloc_ok s
      ≡ some (
        s.dev_num,
        if malloc_ok s.dev_num then some (infos (take s.dev_num s.dev_head)) else none,
      )
unfolding list_devices
list_devices_lem malloc_ok s h = elim (Bool-cases (malloc_ok s.dev_num)) [
  | inl ok ↦ rw (copy_infos_lem s.dev_num s.dev_head h) (rw ok refl)
  | inr full ↦ rw full refl
]
