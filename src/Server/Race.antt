-- ===== src/Server/Race.antt =====
-- Calls of the API of server/rmt_server.c beside the receive thread, step by step. A call reads the status,
-- raises `using_api`, does its work on the transport, and lowers `using_api`; the thread stops the server,
-- looks at `using_api`, and then frees the transport and makes a new one. Each single access of a
-- variable is one step, so that `using_api++` is two: a read, and a write of what was read and one more.
pub mod Safe
use rmt_library.Common.{
  ℕ, suc, ◌+◌, ◌-◌, ◌%◌, ◌^◌, ◌≡◌, refl, Bool, true, false, arith, List, [], ◌∷◌, ◌++◌, All,
}
use rmt_library.Server.{ServerStatus, stat_stop, stat_running}

-- where the thread is: in front of its look at the interface, behind the store of the stopped status, behind
-- the look at `using_api` that lets it free the transport, and with the transport gone
pub data Phase : Type 0 where
  polling stopping freeing gone : Phase

-- where a call is: it has read a running status; it has read `using_api` to raise it; it is at work on the
-- transport; it has read `using_api` to lower it
pub data Call : Type 0 where
  passed : Call
  raising : ℕ → Call
  working : Call
  lowering : ℕ → Call

-- the shared variables, and the calls under way
pub record Shared : Type 0 where
  pub status : ServerStatus
  pub using_api : ℕ
  pub phase : Phase
  pub calls : List Call

-- a step of a call, such as one of `rmt_server_create_device_list`
pub data CallStep : Shared → Shared → Type 0 where
  -- a call reads that the server runs
  pass : (s : Shared) → s.status ≡ stat_running → CallStep s (record s { calls = passed ∷ s.calls })
  -- `g_svr_info.using_api++`, its read and its write
  load :
      (s : Shared) (before after : List Call)
      → s.calls ≡ before ++ (passed ∷ after)
      → CallStep s (record s { calls = before ++ (raising s.using_api ∷ after) })
  enter :
      (s : Shared) (n : ℕ) (before after : List Call)
      → s.calls ≡ before ++ (raising n ∷ after)
      → CallStep s (record s { using_api = (n + 1) % 2 ^ 64; calls = before ++ (working ∷ after) })
  -- `g_svr_info.using_api--`, its read and its write
  finish :
      (s : Shared) (before after : List Call)
      → s.calls ≡ before ++ (working ∷ after)
      → CallStep s (record s { calls = before ++ (lowering s.using_api ∷ after) })
  leave :
      (s : Shared) (n : ℕ) (before after : List Call)
      → s.calls ≡ before ++ (lowering n ∷ after)
      → CallStep s (record s { using_api = (n + (2 ^ 64 - 1)) % 2 ^ 64; calls = before ++ after })

-- a step of the thread
pub data ThreadStep : Shared → Shared → Type 0 where
  -- the thread finds another interface, or the status of `rmt_reinit_server`
  stop :
      (s : Shared)
      → s.phase ≡ polling
      → ThreadStep s (record s { status = stat_stop; phase = stopping })
  -- `using_api` is not 0, or a transfer runs, or there is no interface: the turn ends
  wait : (s : Shared) → s.phase ≡ stopping → ThreadStep s (record s { phase = polling })
  -- `using_api` is 0
  clear :
      (s : Shared)
      → s.phase ≡ stopping
      → s.using_api ≡ 0
      → ThreadStep s (record s { phase = freeing })
  -- `dds_transport_deinit`
  free : (s : Shared) → s.phase ≡ freeing → ThreadStep s (record s { phase = gone })
  -- a new transport, and the running status behind it
  revive :
      (s : Shared)
      → s.phase ≡ gone
      → ThreadStep s (record s { status = stat_running; phase = polling })

pub data Step : Shared → Shared → Type 0 where
  by_call : {s t : Shared} → CallStep s t → Step s t
  by_thread : {s t : Shared} → ThreadStep s t → Step s t
  -- `rmt_reinit_server`
  ask_reinit : (s : Shared) → Step s (record s { status = stat_stop })

-- a run whose steps are all of some kind
pub data Reach (P : (s t : Shared) → Step s t → Type 0) (s : Shared) : Shared → Type 0 where
  here : Reach P s s
  next : {t u : Shared} → Reach P s t → (step : Step t u) → P t u step → Reach P s u

abbrev pub AnyStep : (s t : Shared) → Step s t → Type 0
AnyStep s t step = Unit

-- the call does not stand between its look at the status and its write to `using_api`
abbrev pub IsCounted : Call → Type 0
IsCounted passed = false ≡ true
IsCounted (raising n) = false ≡ true
IsCounted working = Unit
IsCounted (lowering n) = Unit

-- The thread does not overtake a call: it lets itself free the transport only if no call stands between its look
-- at the status and its write to `using_api`.
abbrev pub IsPatient : (s t : Shared) → Step s t → Type 0
IsPatient s t (by_thread (clear s' e z)) = All IsCounted s'.calls
IsPatient s t _ = Unit

-- Besides, the clients call one after another: a call begins only when no other is under way.
abbrev pub IsCareful : (s t : Shared) → Step s t → Type 0
IsCareful s t (by_thread (clear s' e z)) = All IsCounted s'.calls
IsCareful s t (by_call (pass s' e)) = s'.calls ≡ []
IsCareful s t _ = Unit

-- a running server with no call
abbrev pub quiet : Shared
quiet = record { status = stat_running; using_api = 0; phase = polling; calls = [] }

-- whether the transport is there
abbrev pub has_transport : Phase → Bool
has_transport gone = false
has_transport _ = true

-- how many calls are at work on the transport
abbrev pub at_work : List Call → ℕ
at_work [] = 0
at_work (working ∷ calls) = suc (at_work calls)
at_work (_ ∷ calls) = at_work calls

-- Nothing in the code keeps the thread from overtaking a call. From any state in which the server
-- runs, the thread is polling and `using_api` is 0, there is a run in which a call has read the
-- status, the thread frees the transport, and the call then goes to work on it.
pub use_after_free :
    (s : Shared)
    → s.status ≡ stat_running
    → s.phase ≡ polling
    → s.using_api ≡ 0
    → (t : Shared) × Reach AnyStep s t
      × (has_transport t.phase ≡ false)
      × (at_work t.calls ≡ suc (at_work s.calls))
use_after_free s running top unused =
    let s₁ = record s { calls = passed ∷ s.calls } in
    let s₂ = record s₁ { status = stat_stop; phase = stopping } in
    let s₃ = record s₂ { phase = freeing } in
    let s₄ = record s₃ { phase = gone } in
    let s₅ = record s₄ { calls = raising s.using_api ∷ s.calls } in
    let r₂ = next (next here (by_call (pass s running)) tt) (by_thread (stop s₁ top)) tt in
    let r₄ = next (next r₂ (by_thread (clear s₂ refl unused)) tt) (by_thread (free s₃ refl)) tt in
    let r₅ = next r₄ (by_call (load s₄ [] s.calls refl)) tt in
    (_, next r₅ (by_call (enter s₅ s.using_api [] s.calls refl)) tt, refl, refl)

-- Nor is it enough that the thread overtakes no call: two calls may read `using_api` before either writes it, and
-- then one of them is not counted. From any state in which the server runs, the thread is polling,
-- `using_api` is 0 and no call stands between its look and its write, there is a run in which the
-- thread overtakes no call and yet frees the transport while one call more is at work on it.
pub lost_update :
    (s : Shared)
    → s.status ≡ stat_running
    → s.phase ≡ polling
    → s.using_api ≡ 0
    → All IsCounted s.calls
    → (t : Shared) × Reach IsPatient s t
      × (has_transport t.phase ≡ false)
      × (at_work t.calls ≡ suc (at_work s.calls))
lost_update s running top unused counted =
    let u = s.using_api in
    let up = (u + 1) % 2 ^ 64 in
    let s₁ = record s { calls = passed ∷ s.calls } in
    let s₂ = record s { calls = passed ∷ passed ∷ s.calls } in
    let s₃ = record s { calls = raising u ∷ passed ∷ s.calls } in
    let s₄ = record s { calls = raising u ∷ raising u ∷ s.calls } in
    let s₅ = record s { using_api = up; calls = working ∷ raising u ∷ s.calls } in
    let s₆ = record s { using_api = up; calls = working ∷ working ∷ s.calls } in
    let s₇ = record s₆ { calls = lowering up ∷ working ∷ s.calls } in
    let down = (up + (2 ^ 64 - 1)) % 2 ^ 64 in
    let s₈ = record s { using_api = down; calls = working ∷ s.calls } in
    let s₉ = record s₈ { status = stat_stop; phase = stopping } in
    let zero : down ≡ 0 = omega (arith, unused) in
    let r₂ = next (next here (by_call (pass s running)) tt) (by_call (pass s₁ running)) tt in
    let r₃ = next r₂ (by_call (load s₂ [] (passed ∷ s.calls) refl)) tt in
    let r₄ = next r₃ (by_call (load s₃ (raising u ∷ []) s.calls refl)) tt in
    let r₅ = next r₄ (by_call (enter s₄ u [] (raising u ∷ s.calls) refl)) tt in
    let r₆ = next r₅ (by_call (enter s₅ u (working ∷ []) s.calls refl)) tt in
    let r₇ = next r₆ (by_call (finish s₆ [] (working ∷ s.calls) refl)) tt in
    let r₈ = next r₇ (by_call (leave s₇ up [] (working ∷ s.calls) refl)) tt in
    let r₉ = next r₈ (by_thread (stop s₈ top)) tt in
    let r = next r₉ (by_thread (clear s₉ refl zero)) (tt, counted) in
    (_, next r (by_thread (free (record s₉ { phase = freeing }) refl)) tt, refl, refl)
