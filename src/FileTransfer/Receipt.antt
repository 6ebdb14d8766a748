-- ===== src/FileTransfer/Receipt.antt =====
-- What one reply does to a file transfer in server/datainfo_server.c.
use rmt_library.Common.{ℕ, ◌+◌, ◌≡◌, refl, Bool, if◌then◌else◌, some, Bool-cases, inl, inr}
use rmt_library.Types.{Reply, TransferResult, TransferStatus}
use rmt_library.DevInfo.Status.{Good, Marked, set_status-Marked}
use rmt_library.FileTransfer.{Transfer, State, is_mine, outcome, recv_reply}

-- All of a transfer but its count of replies is as it was.
abbrev pub counting : Transfer → ℕ → Transfer
counting t n = record t { recv_num = n }

module _ (malloc_ok : ℕ → Bool) (junk : TransferResult) where
  -- the status and the result of a reply
  abbrev pub status_for : Reply → TransferStatus
  status_for msg = (outcome malloc_ok junk msg).0

  abbrev pub result_for : Reply → TransferResult
  result_for msg = (outcome malloc_ok junk msg).1

  -- A reply of another request changes nothing. A reply of this one sets the status and the result of
  -- its device, if that is known, and of no other, and is counted in either case.
  pub recv_reply_lem :
      (msg : Reply) (s : State)
      → Good s.registry
      → (s' : State) × (recv_reply malloc_ok junk msg s ≡ some s')
        × (if is_mine s.transfer msg
            then Marked msg.device_id (status_for msg) (result_for msg) s.registry s'.registry
              × (s'.transfer ≡ counting s.transfer (s.transfer.recv_num + 1))
            else s' ≡ s)
  unfolding recv_reply
  recv_reply_lem msg s g = elim (Bool-cases (is_mine s.transfer msg)) [
    | inr other ↦ (s, rw other refl, rw other refl)
    | inl mine ↦
        let (r, e, m) = set_status-Marked msg.device_id (status_for msg) (result_for msg) g in
        (
          record { registry = r; transfer = counting s.transfer (s.transfer.recv_num + 1) },
          rw (mine, e) refl,
          rw mine (m, refl),
        )
  ]

-- A state of the transfer `t` at some count of replies, with a good registry.
pub record Serves (t : Transfer) (s : State) : Type 0 where
  pub good : Good s.registry
  pub same : s.transfer ≡ counting t s.transfer.recv_num
