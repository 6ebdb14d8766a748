-- ===== src/Server/Start/Ended.antt =====
-- What `rmt_server_deinit` of server/rmt_server.c leaves, and a start behind it.
use rmt_library.Common.{
  Bool, ℕ, ◌+◌, ◌-◌, ◌%◌, ◌^◌, ◌≡◌, refl, true, false, ◌||◌, if◌then◌else◌, ◌==◌, ◌&&◌, none, some,
  List, Bytes, ℤ, pos, is_neg, arith,
}
use rmt_library.Types.{DeviceMsg}
use rmt_library.Transport as Transport
use rmt_library.Transport.{Taken, Transport, live, freed, made, Answers, send, is_pos}
use rmt_library.Transport.Life.{topic_failed, endpoint_failed}
use rmt_library.DevInfo as Devices
use rmt_library.DevInfo.{Node}
use rmt_library.DevInfo.Inv.{deinit-eq-init}
use rmt_library.DataInfo.{Env}
use rmt_library.Config as Config
use rmt_library.Config.{config_deinit, init_rmt_cfg}
use rmt_library.Logger.{log_deinit}
use rmt_library.Server.{
  stat_running, guarded, get_info, set_info_with_same_value, create_device_list,
}
use rmt_library.Server.Api.{IsUp}
use rmt_library.Server.Turn.{IsValid}
use rmt_library.Server.Start.{Process, Platform, init, deinit}
use rmt_library.Server.Start.Ready.{init_ready, settled}

-- the globals without the transport's participant
abbrev left : Transport.Globals → Transport.Globals
left g =
    let n = (g.participant_num + (2 ^ 32 - 1)) % 2 ^ 32 in
    record g { domain = if n == 0 && is_pos g.domain then pos 0 else g.domain; participant_num = n }

-- the process behind `rmt_server_deinit`
abbrev pub ended : Process → Process
ended p = record p {
  config = config_deinit p.config;
  log = log_deinit p.config.cfg.logfile p.log;
  server = record p.server {
    transport = freed;
    globals = left p.server.globals;
    files = record p.server.files { registry = Devices.deinit p.server.files.registry };
  };
  recv_thread_status = false;
}

deinit_lem :
    (deleted : ℤ) (p : Process) (t : Transport)
    → p.server.transport ≡ live t
    → deinit deleted p ≡ some (send deleted, ended p)
unfolding deinit Transport.deinit
deinit_lem deleted p t there = ground (arith, there)

-- The end of a running server with a transport does not stop its API: the pointer to the freed transport and the
-- status stay, and a later request or a device list follows the pointer.
pub deinit_leaves_api :
    (deleted : ℤ) (p : Process) (t : Transport) (env : Env) (ids : List ℕ) (text : Bytes)
    (malloc_ok : ℕ → Bool) (fresh : Node) (takes : List (Taken DeviceMsg))
    → p.server.transport ≡ live t
    → p.server.status ≡ stat_running
    → (q : Process) × (deinit deleted p ≡ some (send deleted, q))
      × (get_info env ids text q.server ≡ none)
      × (set_info_with_same_value env ids text q.server ≡ none)
      × (create_device_list malloc_ok fresh takes q.server ≡ none)
unfolding get_info set_info_with_same_value create_device_list guarded
deinit_leaves_api deleted p t env ids text malloc_ok fresh takes there running =
    (ended p, deinit_lem deleted p t there, rw running refl, rw running refl, rw running refl)

-- A server that ends as the only participant of its process and starts again is up and valid, with no devices: its
-- registry was emptied, and its configuration is the one that is read anew, with the old one
-- forgotten, and with what the start then settles on. (The configuration can be read, the server was
-- valid, and DDS and the memory answer well.)
pub restart_ready :
    (deleted : ℤ) (env : Platform) (p : Process) (t : Transport) (g : Config.Globals)
    → p.server.transport ≡ live t
    → p.server.globals.participant_num ≡ 1
    → IsValid p.server
    → Config.config_init env.outside (config_deinit p.config) ≡ some g
    → env.answers.malloc_ok ≡ true
    → (is_neg env.answers.participant || (topic_failed env.answers || endpoint_failed env.answers))
      ≡ false
    → (q r : Process) × (deinit deleted p ≡ some (send deleted, q))
      × (q.server.files.registry ≡ Devices.init)
      × (init env q ≡ some (pos 0, r))
      × IsUp r.server
      × IsValid r.server
      × (r.server.files.registry ≡ Devices.init)
      × (r.config ≡ (settled env g q).0)
restart_ready deleted env p t g there one v read enough healthy =
    let zero : (ended p).server.globals.participant_num ≡ 0 = omega (arith, one) in
    let (r, e, up, valid, at, empty, idle, api, config, runtime, thread) =
      init_ready env (ended p) g read enough healthy zero in
    (
      ended p,
      r,
      deinit_lem deleted p t there,
      deinit-eq-init v.files.registry.valid,
      e,
      up,
      valid,
      empty,
      config,
    )
