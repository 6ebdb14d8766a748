-- ===== src/Server/Single.antt =====
-- Turns of the receive thread of server/rmt_server.c while a client waits for a file transfer with one device.
use rmt_library.Common.{
  ℕ, ◌+◌, ◌<◌, ◌≤◌, ◌≡◌, ◌⊎◌, ◌^◌, refl, ap, ◌∙◌, sym, Bool, true, false, not, ◌||◌, if◌then◌else◌,
  ◌==◌, Option, none, some, length, arith, inl, inr, Bool-cases, Option-cases, List, [],
}
use rmt_library.Types.{
  RequestType, TransferStatus, TransferResult, is_running, status_server_error, status_agent_error,
  status_running, empty_result,
}
use rmt_library.Transport.{try_recv}
use rmt_library.DevInfo as Devices
use rmt_library.DevInfo.{get_status}
use rmt_library.DevInfo.Lookup.{lookup, get_status-lookup}
use rmt_library.DevInfo.{Registry}
use rmt_library.DevInfo.Status.{Good}
use rmt_library.FileTransfer.{State, is_transferring, tick}
use rmt_library.FileTransfer.Start.{AllRunning, member}
use rmt_library.FileTransfer.Complete.{IsKnown}
use rmt_library.FileTransfer.Tick.{is_late}
use rmt_library.FileTransfer.Expire.{still_running}
use rmt_library.FileTransfer.Single.{waiting, FromDevice, tick-single}
use rmt_library.FileTransfer.Size.{size}
use rmt_library.Server.{
  Server, stat_stop, guarded, Surroundings, update_devices, poll, follow, turn, get_result,
}
use rmt_library.Server.Api.{IsUp, stopped_or_IsUp, get_result_up}
use rmt_library.Server.Turn.{IsValid, IsHealthy, follow-IsValid}
use rmt_library.Server.Turn.Poll.{update_devices-Good}
use rmt_library.Server.Change.{poll-IsValid, turn_step, turn_keeps, turn_waits, is_due}

-- behind the receives of a turn
poll-single :
    (env : Surroundings) (type : RequestType) (seq start id : ℕ) {s : Server}
    → IsValid s
    → IsUp s
    → length s.files.registry.dev_head + length env.devices < 2 ^ 32
    → s.files.transfer ≡ waiting type seq start id
    → FromDevice id (waiting type seq start id) env.feed
    → (s₁ : Server) × (poll env s ≡ some s₁)
      × (((s₁.files.transfer ≡ waiting type seq start id)
            × (is_late env.reply_timeout env.now (waiting type seq start id) ≡ false))
          ⊎ (still_running id s₁.files.registry ≡ false))
unfolding poll
poll-single env type seq start id {s} v up fits w from =
    let (r, e, g, n) = update_devices-Good env.fresh env.devices v.files.registry fits in
    let (f, e', out) =
      tick-single env.malloc_ok env.junk type seq start id env.feed env.reply_timeout env.now r g
        from in
    (record s { files = f }, ground (arith, up.there, e, w, e'), out)

-- A turn of an up and valid server: either the transfer waits as before and is in time, or the device is not left
-- running.
pub turn-single :
    (env : Surroundings) (type : RequestType) (seq start id : ℕ) {s : Server}
    → IsHealthy env
    → IsValid s
    → IsUp s
    → length s.files.registry.dev_head + length env.devices < 2 ^ 32
    → s.files.transfer ≡ waiting type seq start id
    → FromDevice id (waiting type seq start id) env.feed
    → (s' : Server) × (turn env s ≡ some s')
      × IsValid s'
      × (s'.using_api ≡ s.using_api)
      × (size s'.files ≤ size s.files + length env.devices)
      × (((s'.files.transfer ≡ waiting type seq start id)
            × (is_late env.reply_timeout env.now (waiting type seq start id) ≡ false))
          ⊎ (still_running id s'.files.registry ≡ false))
unfolding lookup Devices.init
turn-single env type seq start id {s} healthy v up fits w from =
    let (s', e, v', api, n) = turn_keeps env s healthy v fits in
    let (s₁, e₁, out) = poll-single env type seq start id v up fits w from in
    (
      s',
      e,
      v',
      api,
      n,
      elim out [
        | inl (waits, early) ↦
            let busy : (not (s₁.using_api == 0) || is_transferring s₁.files.transfer) ≡ true =
              ground (arith, waits) in
            let stays : s'.files ≡ s₁.files =
              kept s₁ s' (is_due env s₁) (cc (e, turn_waits env s s₁ e₁ busy)) in
            inl (ap (λ x. x.transfer) stays ∙ waits, early)
        | inr stopped ↦
            let (s₀, e₀, v₀, same, m) = poll-IsValid env s v fits in
            let is : s₀ ≡ s₁ = cc (e₀, e₁) in
            let (s₂, e₂, v₂, k) = follow-IsValid env s₀ healthy v₀ in
            let last : s₂ ≡ s' = cc (e, turn_step env s s₀ s₂ e₀ e₂) in
            inr (elim k.2 [
              | inl unchanged ↦
                  ap (λ x. still_running id x.files.registry) (sym last)
                  ∙ ap (λ x. still_running id x.registry) unchanged
                  ∙ ap (λ x. still_running id x.files.registry) is
                  ∙ stopped
              | inr empty ↦
                  ap (λ x. still_running id x.files.registry) (sym last)
                  ∙ ap (still_running id) empty
            ])
      ],
    )
  where
    kept :
        (s₁ s' : Server) (b : Bool)
        → s' ≡ (if b then record s₁ { status = stat_stop } else s₁)
        → s'.files ≡ s₁.files
    kept s₁ s' true e = ap (λ x. x.files) e
    kept s₁ s' false e = ap (λ x. x.files) e

-- What a client is told of a device by a valid server; if this is that it still runs, then it is so and the server is
-- up; and there is a result, unless the server is stopped.
pub get_result-told :
    (id : ℕ) {s : Server}
    → IsValid s
    → s.using_api < 2 ^ 64
    → (status : TransferStatus) × (result : Option TransferResult) × (get_result id s
        ≡ some ((status, result), s))
      × (is_running status ≡ true → IsUp s × (still_running id s.files.registry ≡ true))
      × (((r : TransferResult) × (result ≡ some r)) ⊎ (s.status ≡ stat_stop))
unfolding get_result guarded lookup
get_result-told id {s} v fits = elim (stopped_or_IsUp s v fits) [
  | inl stop ↦ (status_server_error, none, rw stop refl, λ r. absurd (ground (arith, r)), inr stop)
  | inr up ↦
      let found = get_status-lookup id v.files.registry.valid v.files.registry.fits in
      elim (Option-cases (lookup id s.files.registry)) [
        | inl gone ↦ (
          status_agent_error,
          some empty_result,
          get_result_up id up (rw gone at found),
          λ r. absurd (ground (arith, r)),
          inl (empty_result, refl),
        )
        | inr (n, e) ↦ (
          n.agent_transfer_status,
          some n.transfer_result,
          get_result_up id up (rw e at found),
          λ r. (up, rw (still_running, e) r),
          inl (n.transfer_result, refl),
        )
      ]
]

-- Where the device is not left running, the client is not told that it is.
pub get_result-stopped :
    (id : ℕ) {s : Server}
    → IsValid s
    → s.using_api < 2 ^ 64
    → still_running id s.files.registry ≡ false
    → (status : TransferStatus) × (result : Option TransferResult) × (get_result id s
        ≡ some ((status, result), s))
      × (is_running status ≡ false)
get_result-stopped id {s} v fits stopped =
    let (status, result, e, told, heard) = get_result-told id v fits in
    (
      status,
      result,
      e,
      elim (Bool-cases (is_running status)) [
        | inr done ↦ done
        | inl runs ↦ absurd (ground (arith, (told runs).1, stopped))
      ],
    )

-- A turn that takes no announcement and does not look at the interface comes to the call of the file transfer.
pub turn_quiet :
    (env : Surroundings) {s : Server} {f : State}
    → IsUp s
    → env.devices ≡ []
    → env.auto_detect_interface ≡ false
    → tick env.malloc_ok env.junk env.feed env.reply_timeout env.now s.files ≡ some f
    → turn env s ≡ some (record s { files = f })
unfolding turn poll follow update_devices try_recv
turn_quiet env {s} {f} up none_new still ticked =
    ground (arith, up.there, up.running, none_new, still, ticked)

-- A known device whose status is marked as running is told to run.
pub get_result-marked :
    (id : ℕ) (ids : List ℕ) (r : Registry) {s : Server}
    → IsUp s
    → Good s.files.registry
    → AllRunning ids r s.files.registry
    → member id ids ≡ true
    → IsKnown r id
    → get_result id s ≡ some ((status_running, some empty_result), s)
unfolding lookup
get_result-marked id ids r {s} up g all listed (n, known) =
    get_result_up id up (get_status-lookup id g.valid g.fits ∙ rw (all id, listed, known) refl)
