-- ===== src/Server/Turn.antt =====
-- One turn of the receive thread of server/rmt_server.c.
pub mod Poll
use mathlib.Core.Option
use rmt_library.Common.{
  ℕ, ◌+◌, ◌<◌, ◌≤◌, ◌≡◌, ◌≢◌, ◌⊎◌, refl, inl, inr, Bool, true, false, ◌||◌, ◌&&◌, not,
  if◌then◌else◌, ◌^◌, none, some, [], Bytes, length, str_eq, pos, is_neg, arith, Option-cases,
  Bool-cases, ◌==◌, ap, ◌∙◌,
}
use rmt_library.Transport.{
  Pointer, null, live, freed, non_null, Globals, Transport, made, is_pos, is_precondition_not_met,
  config_init, server_init, deinit,
}
use rmt_library.Transport.Life.{server_init_outcomes, topic_failed, endpoint_failed}
use rmt_library.DevInfo as Devices
use rmt_library.DevInfo.Inv.{init-IsValid, deinit-eq-init}
use rmt_library.DevInfo.Status.{Good}
use rmt_library.FileTransfer as Files
use rmt_library.FileTransfer.{State, is_transferring}
use rmt_library.FileTransfer.Tick as Tick
use rmt_library.FileTransfer.Size.{size}
use rmt_library.Server.{
  Server, ServerStatus, stat_stop, stat_running, is_up, Surroundings, poll, free_transport,
  bring_up, follow, turn,
}
use rmt_library.Server.Turn.Poll.{poll_lem}

-- What the server keeps from turn to turn: the registry and the transfer are valid, and either it has no
-- transport, counts no participant and is stopped, or it has one and counts it.
pub record IsValid (s : Server) : Type 0 where
  pub files : Tick.IsValid s.files
  pub transport :
      ((s.transport ≡ null) × (s.globals.participant_num ≡ 0) × (s.status ≡ stat_stop))
      ⊎ ((t : Transport) × (s.transport ≡ live t) × (s.globals.participant_num ≡ 1))

-- the count of the API stays, no device is added, and the registry and the transfer stay, or all devices are
-- forgotten
abbrev pub Kept : Server → Server → Type 0
Kept s s' =
    (s'.using_api ≡ s.using_api)
    × (size s'.files ≤ size s.files)
    × ((s'.files ≡ s.files) ⊎ (s'.files.registry ≡ Devices.init))

-- DDS makes every entity for which there is memory.
abbrev pub IsHealthy : Surroundings → Type 0
IsHealthy env =
    (is_neg env.answers.participant || (topic_failed env.answers || endpoint_failed env.answers))
    ≡ false

pub free_transport_lem :
    (env : Surroundings) (s : Server) (t : Transport)
    → Tick.IsValid s.files
    → s.transport ≡ live t
    → s.globals.participant_num ≡ 1
    → (s' : Server) × (free_transport env s ≡ some s')
      × (s'.transport ≡ null)
      × (s'.files ≡ record s.files { registry = Devices.init })
      × (s'.globals.participant_num ≡ 0)
      × (s'.status ≡ s.status)
      × (s'.using_api ≡ s.using_api)
unfolding free_transport deinit
free_transport_lem env s t v there one =
    let e = deinit-eq-init v.registry.valid in
    let d = record s.globals {
      domain = if is_pos s.globals.domain then pos 0 else s.globals.domain;
      participant_num = 0;
    } in
    (
      record s {
        transport = null;
        files = record s.files { registry = Devices.init };
        globals = d;
      },
      ground (arith, there, one, e),
      refl,
      refl,
      refl,
      refl,
      refl,
    )

pub free_transport-null :
    (env : Surroundings) (s : Server) → s.transport ≡ null → free_transport env s ≡ some s
unfolding free_transport
free_transport-null env s gone = rw gone refl

init-Good : Good Devices.init
unfolding Devices.init
init-Good = record { valid = init-IsValid; fits = omega arith }

-- the transfer stays valid over an empty registry
pub cleared-IsValid :
    {f : State} → Tick.IsValid f → Tick.IsValid (record f { registry = Devices.init })
cleared-IsValid v = record { registry = init-Good; phase = v.phase }

pub down-IsValid : {s : Server} → IsValid s → IsValid (record s { status = stat_stop })
down-IsValid v = record {
  files = v.files;
  transport = elim v.transport [
    | inl (gone, zero, stop) ↦ inl (gone, zero, refl)
    | inr up ↦ inr up
  ];
}

pub init-Tick_IsValid :
    (transfer : Files.Transfer)
    → Tick.IsValid (record { registry = Devices.init; transfer = Files.init transfer })
unfolding Devices.init Files.init
init-Tick_IsValid transfer = record { registry = init-Good; phase = inl refl }

bring_up-IsValid :
    (env : Surroundings) (s : Server)
    → IsHealthy env
    → Tick.IsValid s.files
    → s.transport ≡ null
    → s.globals.participant_num ≡ 0
    → s.status ≡ stat_stop
    → (s' : Server) × (bring_up env s ≡ some s') × IsValid s' × Kept s s'
unfolding bring_up config_init Devices.init
bring_up-IsValid env s healthy v gone zero down =
    let c = config_init env.created env.domain_id s.globals in
    let outcomes = server_init_outcomes env.answers c.1 in
    elim (Bool-cases (is_neg c.0)) [
      | inl failed ↦ (
        record s { globals = c.1 },
        rw failed refl,
        record { files = v; transport = inl (gone, zero, down) },
        (refl, omega arith, inl refl),
      )
      | inr answered ↦ elim (Bool-cases env.answers.malloc_ok) [
        | inl enough ↦ (
          record {
            transport = live (made env.answers);
            status = stat_running;
            using_api = s.using_api;
            files = record { registry = Devices.init; transfer = Files.init s.files.transfer };
            globals = record c.1 { participant_num = 1 };
            runtime = record { net_interface = env.interface; net_ip = env.ip };
          },
          ground (arith, answered, outcomes, enough, healthy, zero),
          record {
            files = init-Tick_IsValid s.files.transfer;
            transport = inr (made env.answers, refl, refl);
          },
          (refl, omega arith, inr refl),
        )
        | inr no_memory ↦ (
          record s { transport = null; globals = c.1 },
          ground (arith, answered, outcomes, no_memory),
          record { files = v; transport = inl (refl, zero, down) },
          (refl, omega arith, inl refl),
        )
      ]
    ]

pub bring_up_lem :
    (env : Surroundings) (s : Server)
    → IsHealthy env
    → env.answers.malloc_ok ≡ true
    → (is_neg env.created && not (is_precondition_not_met env.created)) ≡ false
    → s.globals.participant_num ≡ 0
    → bring_up env s
      ≡ some (record {
        transport = live (made env.answers);
        status = stat_running;
        using_api = s.using_api;
        files = record { registry = Devices.init; transfer = Files.init s.files.transfer };
        globals = record { domain = env.created; domain_id = env.domain_id; participant_num = 1 };
        runtime = record { net_interface = env.interface; net_ip = env.ip };
      })
unfolding bring_up config_init
bring_up_lem env s healthy enough created zero = ground (
  arith,
  created,
  server_init_outcomes env.answers (config_init env.created env.domain_id s.globals).1,
  enough,
  healthy,
  zero,
)

pub follow-IsValid :
    (env : Surroundings) (s : Server)
    → IsHealthy env
    → IsValid s
    → (s' : Server) × (follow env s ≡ some s') × IsValid s' × Kept s s'
unfolding follow Devices.init
follow-IsValid env s healthy v =
    let down = record s { status = stat_stop } in
    let keeps : IsValid down = down-IsValid v in
    elim (Bool-cases (env.auto_detect_interface || not (is_up s.status))) [
      | inr still ↦ (s, rw still refl, v, (refl, omega arith, inl refl))
      | inl looks ↦
          elim (Bool-cases (
            not (str_eq env.interface s.runtime.net_interface)
            || (not (str_eq env.ip s.runtime.net_ip) || not (is_up s.status)))) [
              | inr same ↦ (s, rw (looks, same) refl, v, (refl, omega arith, inl refl))
              | inl changed ↦
                  elim (Bool-cases (not (s.using_api == 0) || is_transferring s.files.transfer)) [
                    | inl busy ↦
                        (down, rw (looks, changed, busy) refl, keeps, (refl, omega arith, inl refl))
                    | inr quiet ↦ elim (Bool-cases (str_eq env.interface [])) [
                      | inl offline ↦ (
                        down,
                        rw (looks, changed, quiet, offline) refl,
                        keeps,
                        (refl, omega arith, inl refl),
                      )
                      | inr online ↦ (elim v.transport [
                        | inl (gone, zero, stop) ↦
                            let (s', e', v', k) =
                              bring_up-IsValid env down healthy keeps.files gone zero refl in
                            (
                              s',
                              rw (looks, changed, quiet, online, free_transport-null env down gone)
                                  e',
                              v',
                              k,
                            )
                        | inr (t, there, one) ↦
                            let (f, e, gone, files, zero, stop, api) =
                              free_transport_lem env down t keeps.files there one in
                            let (s', e', v', k) =
                              bring_up-IsValid env f healthy
                                (rw files (cleared-IsValid keeps.files)) gone zero stop in
                            (
                              s',
                              rw (looks, changed, quiet, online, e) e',
                              v',
                              (
                                ground (arith, k.0, api),
                                ground (arith, k.1, files),
                                elim k.2 [
                                  | inl same ↦ inr (ap (λ x. x.registry) (same ∙ files))
                                  | inr empty ↦ inr empty
                                ],
                              ),
                            )
                      ])
                    ]
                  ]
            ]
    ]
