-- ===== src/Server/Start/Ready.antt =====
-- What `rmt_server_init` of server/rmt_server.c leaves: a server that serves, or one that only says so.
use rmt_library.Common.{
  ℕ, ◌∙◌, ◌≡◌, refl, true, false, ◌||◌, if◌then◌else◌, none, some, List, Bytes, pos, is_neg, arith,
  inr,
}
use rmt_library.Types.{Runtime}
use rmt_library.Transport as Transport
use rmt_library.Transport.{Taken, Pointer, live, freed, made, Answers, server_init}
use rmt_library.Transport.Life.{server_init_outcomes, topic_failed, endpoint_failed, counted}
use rmt_library.DevInfo as Devices
use rmt_library.FileTransfer as Files
use rmt_library.DataInfo.{Env}
use rmt_library.Config as Config
use rmt_library.Config.{Outside, runtime_init}
use rmt_library.Server.{stat_running, guarded, get_info, Surroundings, turn, poll}
use rmt_library.Server.Api.{IsUp}
use rmt_library.Server.Turn.{IsValid, init-Tick_IsValid}
use rmt_library.Server.Start.{Process, Platform, init, prepared, opened}

-- the configuration and the interface that a start settles on
abbrev pub settled : Platform → Config.Globals → Process → Config.Globals × Runtime
settled env g p = runtime_init env.interfaces env.address g p.server.runtime

-- the process behind a start
abbrev pub started : Platform → Config.Globals → Process → Pointer → Process
started env g p t =
    let q = prepared env g p in
    opened
      (record q { server = record q.server { transport = t; globals = counted q.server.globals } })

init_lem :
    (env : Platform) (p : Process) (g : Config.Globals)
    → Config.config_init env.outside p.config ≡ some g
    → env.answers.malloc_ok ≡ true
    → (is_neg env.answers.participant || topic_failed env.answers) ≡ false
    → init env p
      ≡ some (
        pos 0,
        started env g p (if endpoint_failed env.answers then freed else live (made env.answers)),
      )
unfolding init
init_lem env p g e enough made_it =
    ground (
      arith,
      e,
      enough,
      made_it,
      server_init_outcomes env.answers (prepared env g p).server.globals,
    )

-- The start of a server, in whatever state the process was left with no participant: if the configuration can be
-- read and DDS and the memory answer well, then `rmt_server_init` returns 0, and the server is up
-- and valid with a new transport, no devices, no transfer and no call counted; it holds the
-- configuration and the interface that were settled on, and its thread runs. (That the domain may
-- fail is not looked at.)
pub init_ready :
    (env : Platform) (p : Process) (g : Config.Globals)
    → Config.config_init env.outside p.config ≡ some g
    → env.answers.malloc_ok ≡ true
    → (is_neg env.answers.participant || (topic_failed env.answers || endpoint_failed env.answers))
      ≡ false
    → p.server.globals.participant_num ≡ 0
    → (q : Process) × (init env p ≡ some (pos 0, q))
      × IsUp q.server
      × IsValid q.server
      × (q.server.transport ≡ live (made env.answers))
      × (q.server.files.registry ≡ Devices.init)
      × (q.server.files.transfer.status ≡ 0)
      × (q.server.using_api ≡ 0)
      × (q.config ≡ (settled env g p).0)
      × (q.server.runtime ≡ (settled env g p).1)
      × (q.recv_thread_status ≡ true)
unfolding opened prepared Transport.config_init Files.init
init_ready env p g e enough healthy zero =
    let ends : endpoint_failed env.answers ≡ false = ground arith in
    let mades : (is_neg env.answers.participant || topic_failed env.answers) ≡ false =
      ground arith in
    (
      started env g p (live (made env.answers)),
      init_lem env p g e enough mades ∙ rw ends refl,
      record { transport = made env.answers; there = refl; running = refl; fits = omega arith },
      record {
        files = init-Tick_IsValid p.server.files.transfer;
        transport = inr (made env.answers, refl, omega (arith, zero));
      },
      refl,
      refl,
      refl,
      refl,
      refl,
      refl,
      refl,
    )

-- If DDS makes the participant and the topics but not every reader and writer, `rmt_server_init` still returns 0 and
-- opens the API, over a transport that is freed: a request faults, and so does the thread's first
-- turn.
pub init_dangling :
    (env : Platform) (p : Process) (g : Config.Globals)
    → Config.config_init env.outside p.config ≡ some g
    → env.answers.malloc_ok ≡ true
    → (is_neg env.answers.participant || topic_failed env.answers) ≡ false
    → endpoint_failed env.answers ≡ true
    → (ask : Env) (ids : List ℕ) (text : Bytes) (around : Surroundings)
    → (q : Process) × (init env p ≡ some (pos 0, q))
      × (q.server.status ≡ stat_running)
      × (q.server.transport ≡ freed)
      × (get_info ask ids text q.server ≡ none)
      × (turn around q.server ≡ none)
unfolding opened get_info guarded turn poll
init_dangling env p g e enough made_it failed ask ids text around = (
  started env g p freed,
  init_lem env p g e enough made_it ∙ rw failed refl,
  refl,
  refl,
  refl,
  refl,
)
