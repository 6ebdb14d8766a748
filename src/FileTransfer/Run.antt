-- ===== src/FileTransfer/Run.antt =====
-- Every sequence of file transfers and calls of the thread's function in server/datainfo_server.c.
use mathlib.Core.Option
use rmt_library.Common.{
  ◌≤◌, ◌%◌, ◌^◌, ℕ, ◌+◌, ◌<◌, ◌≡◌, refl, Bool, Option, none, some, List, [], ◌∷◌, Bytes, length,
  arith, inl, inr, All,
}
use rmt_library.Types.{Reply, import, export, TransferResult}
use rmt_library.Transport.{Taken}
use rmt_library.FileTransfer.{State, send_file, recv_file, tick, started}
use rmt_library.FileTransfer.Start.{busy_refused, send_file-Begins, recv_file-Begins}
use rmt_library.FileTransfer.Tick.{IsValid, tick-IsValid}

-- a call of a client, with `rand()` and the time, or of the thread, with what it receives and the time
pub data Event : Type 0 where
  send : ℕ → ℕ → List ℕ → Bytes → Bytes → Bytes → ℕ → Event
  fetch : ℕ → ℕ → ℕ → Bytes → Bytes → Event
  poll : (ℕ → Bool) → TransferResult → List (List (Taken Reply)) → ℕ → ℕ → Event

unfoldable pub step : Event → State → Option State
step (send seq now ids callback filename file file_len) s =
    Option.map (λ r. r.2) (send_file seq now ids callback filename file file_len s)
step (fetch seq now id callback filename) s =
    Option.map (λ r. r.2) (recv_file seq now id callback filename s)
step (poll malloc_ok junk feed timeout now) s = tick malloc_ok junk feed timeout now s

pub run : List Event → State → Option State
run [] s = some s
run (event ∷ events) s = elim (step event s) [ none ↦ none | some s' ↦ run events s' ]

-- the two names of a transfer fit the buffer of its message, and the file has as many bytes as are sent
abbrev pub NamesFit : Event → Type 0
NamesFit (send seq now ids callback filename file file_len) =
    (length callback + 1 + length filename < 1024) × (file_len % 2 ^ 32 ≤ length file)
NamesFit (fetch seq now id callback filename) = length callback + 1 + length filename < 1024
NamesFit (poll malloc_ok junk feed timeout now) = Unit

pub step-IsValid :
    (event : Event) {s : State}
    → NamesFit event
    → IsValid s
    → (s' : State) × (step event s ≡ some s') × IsValid s'
unfolding step
step-IsValid (send seq now ids callback filename file file_len) {s} fits v = elim v.phase [
  | inl idle ↦
      let (r, e, g, all) =
        send_file-Begins seq now file_len ids callback filename file s v.registry idle fits.0
          fits.1 in
      (
        record { registry = r; transfer = started import seq now ids },
        rw e refl,
        record { registry = g; phase = inr (refl, (ids, refl, refl)) },
      )
  | inr (busy, more) ↦ (
    s,
    rw (busy_refused seq now 0 file_len ids callback filename file s (ground (arith, busy))).0 refl,
    v,
  )
]
step-IsValid (fetch seq now id callback filename) {s} fits v = elim v.phase [
  | inl idle ↦
      let (r, e, g, all) = recv_file-Begins seq now id callback filename s v.registry idle fits in
      (
        record { registry = r; transfer = started export seq now (id ∷ []) },
        rw e refl,
        record { registry = g; phase = inr (refl, (id ∷ [], refl, refl)) },
      )
  | inr (busy, more) ↦
      (s, rw (busy_refused seq now id 0 [] callback filename [] s (ground (arith, busy))).1 refl, v)
]
step-IsValid (poll malloc_ok junk feed timeout now) {s} fits v =
    tick-IsValid malloc_ok junk feed timeout now v

-- From a valid state, no sequence of transfers that clients begin, in any state of the last one,
-- and of calls of the thread's function, whatever these receive and however late they come,
-- follows a null pointer or leaves a buffer, as long as the names of each transfer fit its
-- message and each file has as many bytes as are sent; and each ends in a valid state.
pub run_files-IsValid :
    (events : List Event) {s : State}
    → All NamesFit events
    → IsValid s
    → (s' : State) × (run events s ≡ some s') × IsValid s'
unfolding run
run_files-IsValid [] {s} fits v = (s, refl, v)
run_files-IsValid (event ∷ events) fits v =
    let (s₁, e₁, v₁) = step-IsValid event fits.0 v in
    let (s₂, e₂, v₂) = run_files-IsValid events fits.1 v₁ in (s₂, rw (e₁, run) e₂, v₂)
