-- ===== src/FileTransfer/Tick.antt =====
-- One call of `dataserver_info_file_transfer_thread` in server/datainfo_server.c: it never faults, it
-- keeps the invariant, and it ends a transfer whose time is out.
use rmt_library.Common.{
  ℕ, ◌+◌, ◌-◌, ◌<◌, ◌≡◌, ◌⊎◌, refl, ◌∙◌, Bool, true, false, if◌then◌else◌, ◌==◌, ◌||◌, some, List,
  length, arith, ltb, inl, inr, Bool-cases, All,
}
use rmt_library.Types.{Reply, TransferResult}
use rmt_library.Transport.{Taken}
use rmt_library.DevInfo.Status.{Good}
use rmt_library.FileTransfer.{Transfer, State, complete, check_timeout, release, tick}
use rmt_library.FileTransfer.Marks.{mine_in, Counted, receive-Counted}
use rmt_library.FileTransfer.Expire.{
  AllStopped, still_running, not_running, expire_all-AllStopped, All-of-member,
}

-- The registry is good, and either no transfer runs, or one does and has a list of as many devices as it
-- says.
pub record IsValid (s : State) : Type 0 where
  pub registry : Good s.registry
  pub phase :
      (s.transfer.status ≡ 0)
      ⊎ ((s.transfer.status ≡ 1)
          × ((ids : List ℕ) × (s.transfer.id_list ≡ some ids) × (length ids ≡ s.transfer.id_num)))

-- the time of a transfer is out
abbrev pub is_late : ℕ → ℕ → Transfer → Bool
is_late timeout now t = ltb timeout (now - t.start_time)

module _ (malloc_ok : ℕ → Bool) (junk : TransferResult) where
  -- What a call comes to while a transfer to the devices `ids` runs: after the receives, in the state
  -- `got`, it is still running exactly if the count is short and the time is not out; if the time is
  -- out the devices still running get an agent error, and else the registry stays as it was received.
  pub record Ticked (ids : List ℕ) (feed : List (List (Taken Reply))) (timeout now : ℕ)
      (s s' : State) : Type 0 where
    pub got : State
    pub received :
        Counted malloc_ok junk s.transfer s
          (mine_in s.transfer (s.transfer.id_num - s.transfer.recv_num) feed)
          got
    pub good : Good s'.registry
    pub status : s'.transfer.status ≡ (
        if (got.transfer.recv_num == s.transfer.id_num) || is_late timeout now s.transfer
        then 0
        else 1)
    pub stopped :
        if is_late timeout now s.transfer
        then AllStopped ids got.registry s'.registry
        else s'.registry ≡ got.registry
    pub kept : (s'.transfer.status ≡ 0) ⊎ (s'.transfer ≡ got.transfer)

  -- One call on a running transfer to the devices `ids`, whose number the transfer holds, over a
  -- valid registry with fewer than 2^32 devices, ends in some state without a fault. It
  -- makes one receive for each reply that is missing. Of the transfer these change only the count,
  -- by the number of replies to it that they take, and each device has the status of the last such
  -- reply from it. Behind them the transfer is idle exactly if the count is the number of devices
  -- or the time is out. If the time is out, each listed device that
  -- still runs gets an agent error and no other entry changes; else the registry is as it was
  -- received.
  pub tick-Ticked :
      (feed : List (List (Taken Reply))) (timeout now : ℕ) (ids : List ℕ) (s : State)
      → Good s.registry
      → s.transfer.status ≡ 1
      → s.transfer.id_list ≡ some ids
      → length ids ≡ s.transfer.id_num
      → (s' : State) × (tick malloc_ok junk feed timeout now s ≡ some s')
        × Ticked ids feed timeout now s s'
  unfolding tick check_timeout
  tick-Ticked feed timeout now ids s g running listed counted =
      let (got, e, v) =
        receive-Counted malloc_ok junk {t = s.transfer} (s.transfer.id_num - s.transfer.recv_num)
          feed {s = s} (record { good = g; same = refl }) in
      elim (Bool-cases (is_late timeout now s.transfer)) [
        | inr early ↦ (
          release (complete got),
          ground arith,
          record {
            got = got;
            received = v;
            good = ground arith;
            status = ground arith;
            stopped = rw early ground arith;
            kept = ground arith;
          },
        )
        | inl late ↦
            let (r, f, g', all) =
              expire_all-AllStopped s.transfer.id_num s.transfer.id_list ids listed counted
                v.serves.good in
            (
              release (record { registry = r; transfer = record got.transfer { status = 0 } }),
              ground arith,
              record {
                got = got;
                received = v;
                good = g';
                status = ground arith;
                stopped = rw late ground arith;
                kept = ground arith;
              },
            )
      ]

  tick_idle :
      (feed : List (List (Taken Reply))) (timeout now : ℕ) (s : State)
      → s.transfer.status ≡ 0
      → tick malloc_ok junk feed timeout now s ≡ some s
  unfolding tick
  tick_idle feed timeout now s h = ground arith

  -- Whatever the reader, the memory and the clock answer, a call of the thread's function never follows
  -- a null pointer or leaves a list, and it keeps the invariant.
  pub tick-IsValid :
      (feed : List (List (Taken Reply))) (timeout now : ℕ) {s : State}
      → IsValid s
      → (s' : State) × (tick malloc_ok junk feed timeout now s ≡ some s') × IsValid s'
  tick-IsValid feed timeout now {s} v = elim v.phase [
    | inl idle ↦ (s, tick_idle feed timeout now s idle, v)
    | inr (running, (ids, listed, counted)) ↦
        let (s', e, t) = tick-Ticked feed timeout now ids s v.registry running listed counted in
        (
          s',
          e,
          record {
            registry = t.good;
            phase = elim t.kept [
              | inl ended ↦ inl ended
              | inr same ↦
                  let kept = same ∙ t.received.serves.same in
                  inr (ground arith, (ids, ground arith, ground arith))
            ];
          },
        )
  ]

  -- Once the time of a running transfer is out, the next call ends it, whatever it receives: no
  -- transfer runs, so a new one may begin, and no device of the list is left running. (The
  -- registry is valid with fewer than 2^32 devices, and the list has as many devices as the
  -- transfer says.)
  pub tick_timeout :
      (feed : List (List (Taken Reply))) (timeout now : ℕ) (ids : List ℕ) (s : State)
      → Good s.registry
      → s.transfer.status ≡ 1
      → s.transfer.id_list ≡ some ids
      → length ids ≡ s.transfer.id_num
      → s.transfer.start_time + timeout < now
      → (s' : State) × (tick malloc_ok junk feed timeout now s ≡ some s')
        × (s'.transfer.status ≡ 0)
        × All (λ id. still_running id s'.registry ≡ false) ids
  tick_timeout feed timeout now ids s g running listed counted late =
      let (s', e, t) = tick-Ticked feed timeout now ids s g running listed counted in
      let out : is_late timeout now s.transfer ≡ true = ground arith in
      let all : AllStopped ids t.got.registry s'.registry = rw out at t.stopped in
      (
        s',
        e,
        ground (arith, t.status),
        All-of-member (λ id. still_running id s'.registry) ids
            (λ j m. not_running s'.registry t.got.registry ids j (all j) m),
      )
