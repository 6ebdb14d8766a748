-- ===== src/FileTransfer/Flow.antt =====
-- From an agent's reply to the status that a client of the server reads.
use rmt_library.Common.{
  ℕ, ◌≡◌, refl, ap, ◌∙◌, Bool, true, if◌then◌else◌, ==_refl, none, some, length, ℤ, print_int,
  atoi-print_int, IsInt, signed32-low32,
}
use rmt_library.Types.{Reply, import, export, status_done, status_server_error, TransferResult}
use rmt_library.DevInfo.{Node, get_status}
use rmt_library.DevInfo.Lookup.{lookup, get_status-lookup}
use rmt_library.DevInfo.Status.{Good}
use rmt_library.FileTransfer.{State, is_mine, outcome, recv_reply}
use rmt_library.FileTransfer.Receipt.{recv_reply_lem}

-- what the replies of the callbacks, in decimal, come to
pub outcome-import :
    (malloc_ok : ℕ → Bool) (junk : TransferResult) (msg : Reply) (z : ℤ)
    → msg.type ≡ import
    → msg.msg ≡ print_int z
    → IsInt z
    → outcome malloc_ok junk msg ≡ (status_done, record { result = z; file = none; file_len = 0 })
unfolding outcome
outcome-import malloc_ok junk msg z type printed int =
    rw (type, printed, atoi-print_int z, signed32-low32 z int) refl

pub outcome-export :
    (malloc_ok : ℕ → Bool) (junk : TransferResult) (msg : Reply) (z : ℤ)
    → msg.type ≡ export
    → msg.msg ≡ print_int z
    → IsInt z
    → outcome malloc_ok junk msg ≡ (
        if malloc_ok (length msg.binary)
        then (
          status_done,
          record { result = z; file = some msg.binary; file_len = length msg.binary },
        )
        else (status_server_error, record junk { result = z; file = none }))
unfolding outcome
outcome-export malloc_ok junk msg z type printed int =
    rw (type, printed, atoi-print_int z, signed32-low32 z int) refl

module _ (malloc_ok : ℕ → Bool) (junk : TransferResult) where
  -- after a reply of this transfer, the status of its device is what the reply says
  reported :
      (msg : Reply) (s : State) (n : Node)
      → Good s.registry
      → is_mine s.transfer msg ≡ true
      → lookup msg.device_id s.registry ≡ some n
      → (s' : State) × (recv_reply malloc_ok junk msg s ≡ some s')
        × (get_status msg.device_id s'.registry ≡ some (outcome malloc_ok junk msg))
  reported msg s n g mine known =
      let (s', e, w) = recv_reply_lem malloc_ok junk msg s g in
      let w' = rw mine at w in
      (
        s',
        e,
        get_status-lookup msg.device_id w'.0.good.valid w'.0.good.fits
            ∙ rw (w'.0.entry msg.device_id, ==_refl msg.device_id, known) refl,
      )

  -- The result of an import function. If the registry is valid with fewer than 2^32 devices, a
  -- reply belongs to the current transfer, its device is known and its message is the result, an
  -- `int`, as the agent prints it by `%d`, then the server takes the reply without a fault, and a client
  -- that asks for the status sees the transfer done with that very integer and no file.
  pub import_reported :
      (msg : Reply) (z : ℤ) (s : State) (n : Node)
      → Good s.registry
      → is_mine s.transfer msg ≡ true
      → lookup msg.device_id s.registry ≡ some n
      → msg.type ≡ import
      → msg.msg ≡ print_int z
      → IsInt z
      → (s' : State) × (recv_reply malloc_ok junk msg s ≡ some s')
        × (get_status msg.device_id s'.registry
            ≡ some (status_done, record { result = z; file = none; file_len = 0 }))
  import_reported msg z s n g mine known type printed int =
      let (s', e, w) = reported msg s n g mine known in
      (s', e, w ∙ ap some (outcome-import malloc_ok junk msg z type printed int))

  -- The result of an export function, with the file. If the registry is valid with fewer than 2^32
  -- devices, a reply belongs to the current transfer, its device is known and its message is the
  -- result, an `int`, as the agent prints it, then the server takes the reply without a fault, and a client
  -- that asks for the status sees that integer with the bytes of the reply and their number; or,
  -- if there was no memory for them, a server error and no file.
  pub export_reported :
      (msg : Reply) (z : ℤ) (s : State) (n : Node)
      → Good s.registry
      → is_mine s.transfer msg ≡ true
      → lookup msg.device_id s.registry ≡ some n
      → msg.type ≡ export
      → msg.msg ≡ print_int z
      → IsInt z
      → (s' : State) × (recv_reply malloc_ok junk msg s ≡ some s')
        × (get_status msg.device_id s'.registry
            ≡ some (
                if malloc_ok (length msg.binary)
                then (
                  status_done,
                  record { result = z; file = some msg.binary; file_len = length msg.binary },
                )
                else (status_server_error, record junk { result = z; file = none })))
  export_reported msg z s n g mine known type printed int =
      let (s', e, w) = reported msg s n g mine known in
      (s', e, w ∙ ap some (outcome-export malloc_ok junk msg z type printed int))
