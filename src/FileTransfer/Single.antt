-- ===== src/FileTransfer/Single.antt =====
-- A file transfer with one device in server/datainfo_server.c, call by call of the thread's function: while the
-- device is marked as running, the transfer waits for it.
use rmt_library.Common.{
  ℕ, ◌≡◌, ◌⊎◌, refl, ◌∙◌, ap, Bool, false, some, List, [], ◌∷◌, length, arith, inl, inr, Bool-cases,
  All, ==_refl, Option-cases,
}
use rmt_library.Types.{Reply, RequestType, TransferResult, is_running}
use rmt_library.Transport.{Taken}
use rmt_library.DevInfo.{Registry}
use rmt_library.DevInfo.Lookup.{lookup}
use rmt_library.DevInfo.Status.{Good}
use rmt_library.FileTransfer.{Transfer, State, outcome, tick, started}
use rmt_library.FileTransfer.Receipt.{status_for}
use rmt_library.FileTransfer.Marks.{Counted, mine_in, last_from, marked, marked-last}
use rmt_library.FileTransfer.Expire.{AllStopped, still_running, not_running}
use rmt_library.FileTransfer.Tick.{is_late, Ticked, tick-Ticked}

-- a transfer with one device that waits for its reply
abbrev pub waiting : RequestType → ℕ → ℕ → ℕ → Transfer
waiting type seq start id = started type seq start (id ∷ [])

-- the replies to the transfer in the one receive that a call makes all come from the device
abbrev pub FromDevice : ℕ → Transfer → List (List (Taken Reply)) → Type 0
FromDevice id t feed = All (λ m. m.device_id ≡ id) (mine_in t 1 feed)

last_from-some :
    (id : ℕ) (m : Reply) (ms : List Reply)
    → m.device_id ≡ id
    → (last : Reply) × (last_from id (m ∷ ms) ≡ some last)
last_from-some id m ms e = elim (Option-cases (last_from id ms)) [
  | inl none_later ↦ (m, rw none_later (rw (e, ==_refl id) refl))
  | inr (l, later) ↦ (l, rw later refl)
]

module _ (malloc_ok : ℕ → Bool) (junk : TransferResult) where
  replied : (m : Reply) → is_running (status_for malloc_ok junk m) ≡ false
  unfolding outcome
  replied m = ground arith

  -- a device that has replied is not left running
  replied_stopped :
      (id : ℕ) (m : Reply) (ms : List Reply) (r r' : Registry)
      → m.device_id ≡ id
      → lookup id r' ≡ marked malloc_ok junk id (m ∷ ms) (lookup id r)
      → still_running id r' ≡ false
  replied_stopped id m ms r r' from e =
      let (last, f) = last_from-some id m ms from in
      ground (arith, e, marked-last malloc_ok junk id (m ∷ ms) (lookup id r), f, replied last)

  -- One call: either the transfer waits as before and is in time, or the device is not left running.
  pub tick-single :
      (type : RequestType) (seq start id : ℕ) (feed : List (List (Taken Reply))) (timeout now : ℕ)
      (r : Registry)
      → Good r
      → FromDevice id (waiting type seq start id) feed
      → (s' : State) × (tick malloc_ok junk feed timeout now
            (record { registry = r; transfer = waiting type seq start id })
          ≡ some s')
        × (((s'.transfer ≡ waiting type seq start id)
              × (is_late timeout now (waiting type seq start id) ≡ false))
            ⊎ (still_running id s'.registry ≡ false))
  tick-single type seq start id feed timeout now r g from =
      let t₀ = waiting type seq start id in
      let s : State = record { registry = r; transfer = t₀ } in
      let (s', e, t) = tick-Ticked malloc_ok junk feed timeout now (id ∷ []) s g refl refl refl in
      let received : Counted malloc_ok junk t₀ s (mine_in t₀ 1 feed) t.got = t.received in
      (
        s',
        e,
        elim (Bool-cases (is_late timeout now t₀)) [
          | inl late ↦
              let all : AllStopped (id ∷ []) t.got.registry s'.registry = rw late at t.stopped in
              inr (
                not_running s'.registry t.got.registry (id ∷ []) id (all id) (rw (==_refl id) refl))
          | inr early ↦
              by_replies s s' t refl early (mine_in t₀ 1 feed) (omega (arith, received.count))
                (received.entries id) from
        ],
      )
    where
      waits :
          (s s' : State) (t : Ticked malloc_ok junk (id ∷ []) feed timeout now s s')
          → s.transfer ≡ waiting type seq start id
          → is_late timeout now s.transfer ≡ false
          → t.got.transfer.recv_num ≡ 0
          → s'.transfer ≡ waiting type seq start id
      waits s s' t w early n = elim t.kept [
        | inl ended ↦ absurd (ground (arith, ended, t.status, early, n, w))
        | inr same ↦ same ∙ t.received.serves.same ∙ rw (n, w) refl
      ]

      by_replies :
          (s s' : State) (t : Ticked malloc_ok junk (id ∷ []) feed timeout now s s')
          → s.transfer ≡ waiting type seq start id
          → is_late timeout now s.transfer ≡ false
          → (ms : List Reply) → t.got.transfer.recv_num ≡ length ms
          → lookup id t.got.registry ≡ marked malloc_ok junk id ms (lookup id s.registry)
          → All (λ m. m.device_id ≡ id) ms
          → ((s'.transfer ≡ waiting type seq start id) × (is_late timeout now s.transfer ≡ false))
            ⊎ (still_running id s'.registry ≡ false)
      by_replies s s' t w early [] n e from = inl (waits s s' t w early n, early)
      by_replies s s' t w early (m ∷ ms) n e from = inr (
          replied_stopped id m ms s.registry s'.registry from.0
            (ap (lookup id) (rw early at t.stopped) ∙ e))
