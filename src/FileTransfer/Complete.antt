-- ===== src/FileTransfer/Complete.antt =====
-- The call of `dataserver_info_file_transfer_thread` in server/datainfo_server.c that takes in the last replies.
use mathlib.Core.Option
use rmt_library.Common.{
  ℕ, Bool, ◌-◌, ◌≤◌, ◌∙◌, ◌≡◌, refl, none, some, List, [], ◌∷◌, length, arith, All, ap, false,
  Option-cases, inl, inr,
}
use rmt_library.Types.{Reply, RequestType, TransferResult}
use rmt_library.Transport.{Taken}
use rmt_library.DevInfo.{Registry, Node, get_status}
use rmt_library.DevInfo.Lookup.{lookup, get_status-lookup}
use rmt_library.DevInfo.Status.{Good}
use rmt_library.FileTransfer.{State, started, outcome, tick}
use rmt_library.FileTransfer.Start.{AllRunning}
use rmt_library.FileTransfer.Marks.{mine_in, last_from, marked-last, put_reply}
use rmt_library.FileTransfer.Tick.{tick-Ticked, is_late}

-- the device of an ID is known
abbrev pub IsKnown : Registry → ℕ → Type 0
IsKnown r id = (n : Node) × (lookup id r ≡ some n)

pub AllRunning-IsKnown :
    (ids : List ℕ) (r r' : Registry) (id : ℕ) → AllRunning ids r r' → IsKnown r id → IsKnown r' id
AllRunning-IsKnown ids r r' id all (n, e) = elim (Option-cases (lookup id r')) [
  | inl missing ↦ ground (arith, all id, e, missing)
  | inr found ↦ found
]

-- the replies to a transfer that has just begun which a call takes in
abbrev pub taken_in : RequestType → ℕ → ℕ → List ℕ → List (List (Taken Reply)) → List Reply
taken_in type seq now ids feed = mine_in (started type seq now ids) (length ids) feed

module _ (malloc_ok : ℕ → Bool) (junk : TransferResult) (type : RequestType) (seq now : ℕ)
    (ids : List ℕ) (feed : List (List (Taken Reply))) where
  abbrev replies : List Reply
  replies = taken_in type seq now ids feed

  ended :
      (m : Reply) (r : Registry) (s' : State) (n : Node)
      → Good s'.registry
      → ((j : ℕ)
          → lookup j s'.registry ≡ elim (last_from j replies) [
            | none ↦ lookup j r
            | some m ↦ Option.map (put_reply malloc_ok junk m) (lookup j r)
          ])
      → lookup m.device_id r ≡ some n
      → last_from m.device_id replies ≡ some m
      → get_status m.device_id s'.registry ≡ some (outcome malloc_ok junk m)
  ended m r s' n g entries known last =
      let e : lookup m.device_id s'.registry ≡ some (put_reply malloc_ok junk m n) =
        entries m.device_id ∙ rw (last, known) refl in
      get_status-lookup m.device_id g.valid g.fits ∙ rw e refl

  ended-All :
      (sent : List Reply) (r : Registry) (s' : State)
      → Good s'.registry
      → ((j : ℕ)
          → lookup j s'.registry ≡ elim (last_from j replies) [
            | none ↦ lookup j r
            | some m ↦ Option.map (put_reply malloc_ok junk m) (lookup j r)
          ])
      → All (λ m. IsKnown r m.device_id) sent
      → All (λ m. last_from m.device_id replies ≡ some m) sent
      → All (λ m. get_status m.device_id s'.registry ≡ some (outcome malloc_ok junk m)) sent
  ended-All [] r s' g entries known last = tt
  ended-All (m ∷ sent) r s' g entries known last =
      let (n, e) = known.0 in
      (ended m r s' n g entries e last.0, ended-All sent r s' g entries known.1 last.1)

  -- a transfer that has just begun, and one call in time that takes in one reply from each device
  pub tick_complete :
      (timeout later : ℕ) (sent : List Reply) (r : Registry)
      → Good r
      → All (λ m. IsKnown r m.device_id) sent
      → All (λ m. last_from m.device_id replies ≡ some m) sent
      → length replies ≡ length ids
      → later - now ≤ timeout
      → (s' : State) × (tick malloc_ok junk feed timeout later
            (record { registry = r; transfer = started type seq now ids })
          ≡ some s')
        × (s'.transfer.status ≡ 0)
        × Good s'.registry
        × All (λ m. get_status m.device_id s'.registry ≡ some (outcome malloc_ok junk m)) sent
  tick_complete timeout later sent r g known last all in_time =
      let s : State = record { registry = r; transfer = started type seq now ids } in
      let (s', e, t) = tick-Ticked malloc_ok junk feed timeout later ids s g refl refl refl in
      let early : is_late timeout later s.transfer ≡ false = ground arith in
      let rounds : length ids - 0 ≡ length ids = omega arith in
      let count = rw rounds at t.received.count in
      let same : s'.registry ≡ t.got.registry = rw early at t.stopped in
      (
        s',
        e,
        ground (arith, t.status, count, all),
        t.good,
        ended-All sent r s' t.good
            (λ j.
              ap (lookup j) same
              ∙ rw rounds at (t.received.entries j)
              ∙ marked-last malloc_ok junk j replies (lookup j r))
            known last,
      )
