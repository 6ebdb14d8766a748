-- ===== src/Server/Change.antt =====
-- When the receive thread of server/rmt_server.c follows a new interface, and what holds it back.
use rmt_library.Common.{
  ◌+◌, ◌<◌, ◌≤◌, ap, ◌∙◌, ◌≡◌, ◌⊎◌, inl, inr, Bool, true, false, ◌||◌, ◌&&◌, not, if◌then◌else◌,
  ◌^◌, some, [], length, str_eq, is_neg, arith, ◌==◌,
}
use rmt_library.Transport.{null, live, Globals, made, is_precondition_not_met}
use rmt_library.DevInfo as Devices
use rmt_library.FileTransfer as Files
use rmt_library.FileTransfer.{is_transferring}
use rmt_library.FileTransfer.Size.{size}
use rmt_library.Server.{Server, stat_stop, stat_running, is_up, Surroundings, poll, follow, turn}
use rmt_library.Server.Turn.{
  IsValid, IsHealthy, bring_up_lem, free_transport_lem, free_transport-null, follow-IsValid,
}
use rmt_library.Server.Turn.Poll.{poll_lem}

pub poll-IsValid :
    (env : Surroundings) (s : Server)
    → IsValid s
    → length s.files.registry.dev_head + length env.devices < 2 ^ 32
    → (s' : Server) × (poll env s ≡ some s')
      × IsValid s'
      × (s' ≡ record s { files = s'.files })
      × (size s'.files ≤ size s.files + length env.devices)
poll-IsValid env s v fits =
    let (s', e, f, same, n) = poll_lem env s v.files there fits in
    (s', e, rw same (record { files = f; transport = v.transport }), same, n)
  where
    there : (s.transport ≡ null) ⊎ ((t : _) × (s.transport ≡ live t))
    there = elim v.transport [ inl (gone, zero, stop) ↦ inl gone | inr (t, e, one) ↦ inr (t, e) ]

pub turn_step :
    (env : Surroundings) (s s₁ s₂ : Server)
    → poll env s ≡ some s₁
    → follow env s₁ ≡ some s₂
    → turn env s ≡ some s₂
unfolding turn
turn_step env s s₁ s₂ e₁ e₂ = ground (arith, e₁, e₂)

-- The same turn leaves the count of the API, and adds at most one device for each answer of the reader.
pub turn_keeps :
    (env : Surroundings) (s : Server)
    → IsHealthy env
    → IsValid s
    → length s.files.registry.dev_head + length env.devices < 2 ^ 32
    → (s' : Server) × (turn env s ≡ some s')
      × IsValid s'
      × (s'.using_api ≡ s.using_api)
      × (size s'.files ≤ size s.files + length env.devices)
turn_keeps env s healthy v fits =
    let (s₁, e₁, v₁, same, n) = poll-IsValid env s v fits in
    let (s₂, e₂, v₂, k) = follow-IsValid env s₁ healthy v₁ in
    (s₂, turn_step env s s₁ s₂ e₁ e₂, v₂, k.0 ∙ ap (λ x. x.using_api) same, omega (arith, k.1, n))

-- From a valid server, a turn never follows a null or freed pointer and leaves a valid server,
-- whatever the readers, the clock, the interfaces and the domain answer, as long as DDS makes each
-- entity for which there is memory and the devices known and newly read are fewer than 2^32.
pub turn-IsValid :
    (env : Surroundings) (s : Server)
    → IsHealthy env
    → IsValid s
    → length s.files.registry.dev_head + length env.devices < 2 ^ 32
    → (s' : Server) × (turn env s ≡ some s') × IsValid s'
turn-IsValid env s healthy v fits =
    let (s', e, v', k, n) = turn_keeps env s healthy v fits in (s', e, v')

-- the thread looks at the interface, and finds a reason to start anew
abbrev pub is_due : Surroundings → Server → Bool
is_due env s =
    (env.auto_detect_interface || not (is_up s.status))
    && (not (str_eq env.interface s.runtime.net_interface)
        || (not (str_eq env.ip s.runtime.net_ip) || not (is_up s.status)))

-- If behind the receives of a turn a call of the API is counted or a transfer runs, the turn keeps
-- everything as the receives left it, but for the status: if a new start is due, the server is
-- stopped for further calls.
pub turn_waits :
    (env : Surroundings) (s s₁ : Server)
    → poll env s ≡ some s₁
    → (not (s₁.using_api == 0) || is_transferring s₁.files.transfer) ≡ true
    → turn env s ≡ some (if is_due env s₁ then record s₁ { status = stat_stop } else s₁)
unfolding turn follow
turn_waits env s s₁ e busy = ground (arith, e, busy)

-- the globals of a fresh start: one participant, in the domain of the configuration
abbrev pub fresh_globals : Surroundings → Globals
fresh_globals env = record { domain = env.created; domain_id = env.domain_id; participant_num = 1 }

-- Suppose that behind the receives of a turn the server is valid and due for a new start, no call
-- of the API is counted and no transfer runs, there is an interface, and DDS and the memory answer
-- well. Then it starts anew in that very turn: it frees its transport, if it has one, makes a new
-- one, forgets all devices, resets the transfer, takes over the interface and its address, and
-- runs. It counts one participant.
pub turn_follows :
    (env : Surroundings) (s s₁ : Server)
    → IsHealthy env
    → env.answers.malloc_ok ≡ true
    → (is_neg env.created && not (is_precondition_not_met env.created)) ≡ false
    → str_eq env.interface [] ≡ false
    → poll env s ≡ some s₁
    → IsValid s₁
    → is_due env s₁ ≡ true
    → s₁.using_api ≡ 0
    → is_transferring s₁.files.transfer ≡ false
    → turn env s
      ≡ some (record {
        transport = live (made env.answers);
        status = stat_running;
        using_api = 0;
        files = record { registry = Devices.init; transfer = Files.init s₁.files.transfer };
        globals = fresh_globals env;
        runtime = record { net_interface = env.interface; net_ip = env.ip };
      })
unfolding turn follow
turn_follows env s s₁ healthy enough created online e v due unused quiet = elim v.transport [
  | inl (gone, zero, stop) ↦ ground (
    arith,
    e,
    due,
    unused,
    quiet,
    online,
    free_transport-null env (record s₁ { status = stat_stop }) gone,
    bring_up_lem env (record s₁ { status = stat_stop }) healthy enough created zero,
  )
  | inr (t, there, one) ↦
      let down = record s₁ { status = stat_stop } in
      let (f, freed, gone, files, zero, stop, api) =
        free_transport_lem env down t v.files there one in
      ground (
        arith,
        e,
        due,
        unused,
        quiet,
        online,
        freed,
        bring_up_lem env f healthy enough created zero,
        api,
        files,
      )
]
