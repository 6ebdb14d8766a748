-- ===== src/Server/Start.antt =====
-- server/rmt_server.c: `rmt_server_configure`, `rmt_server_init` and `rmt_server_deinit`, over the configuration, the
-- log, the transport and the registry.
pub mod Ready
pub mod Ended
use mathlib.Core.Option
use rmt_library.Common.{
  ℕ, Bool, true, false, if◌then◌else◌, Option, none, some, List, Bytes, ℤ, pos, minus_one,
}
use rmt_library.Network.{Interface}
use rmt_library.Config as Config
use rmt_library.Config.{Outside, fits40, config_deinit, runtime_init}
use rmt_library.Logger.{Log, log_init, log_deinit}
use rmt_library.Transport as Transport
use rmt_library.Transport.{freed, non_null, Answers, server_init}
use rmt_library.DevInfo as Devices
use rmt_library.FileTransfer as Files
use rmt_library.Server.{Server, stat_running}

-- all globals of a server process; the last one is `recv_thread_status`
pub record Process : Type 0 where
  pub config : Config.Globals
  pub log : Log
  pub server : Server
  pub recv_thread_status : Bool

-- what a start finds outside: the configuration, the interfaces with their addresses, the log file and DDS
pub record Platform : Type 0 where
  pub outside : Outside
  pub interfaces : List Interface
  pub address : Bytes → Bytes
  pub log_opens : Bool
  pub created : ℤ
  pub answers : Answers

-- `rmt_server_configure`; a null interface is `none`.
unfoldable pub server_configure : Outside → Option Bytes → ℤ → Process → Option (ℤ × Process)
server_configure env interface domain_id p = elim (Config.config_init env p.config) [
  | none ↦ none
  | some g ↦
      let done = λ (c : Config.Config).
        some (pos 0, record p { config = record g { cfg = record c { domain_id = domain_id } } }) in
      (elim interface [
        | none ↦ done g.cfg
        | some name ↦ if fits40 name then done (record g.cfg { net_interface = name }) else none
      ])
]

-- "Init server successfully": the thread starts, and the API opens.
unfoldable pub opened : Process → Process
opened p = record p {
  server = record p.server { using_api = 0; status = stat_running };
  recv_thread_status = true;
}

-- the globals in front of `dds_transport_server_init`
unfoldable pub prepared : Platform → Config.Globals → Process → Process
prepared env g p =
    let (g', r) = runtime_init env.interfaces env.address g p.server.runtime in
    record p {
      config = g';
      log = log_init g'.cfg.logfile env.log_opens p.log;
      server = record p.server {
        runtime = r;
        globals = (Transport.config_init env.created g'.cfg.domain_id p.server.globals).1;
        files = record { registry = Devices.init; transfer = Files.init p.server.files.transfer };
      };
    }

-- `rmt_server_init`; the return code of `dds_transport_config_init` is not looked at.
unfoldable pub init : Platform → Process → Option (ℤ × Process)
init env p = elim (Config.config_init env.outside p.config) [
  | none ↦ none
  | some g ↦
      let q = prepared env g p in
      (elim (server_init env.answers q.server.globals) [
        | none ↦ none
        | some (t, g') ↦
            let up = record q { server = record q.server { transport = t; globals = g' } } in
            some (if non_null t then (pos 0, opened up) else (minus_one, up))
      ])
]

-- `rmt_server_deinit`, with the answer of `dds_delete`; the thread is joined first. The pointer to the transport
-- and the status stay as they are.
unfoldable pub deinit : ℤ → Process → Option (ℤ × Process)
deinit deleted p =
    Option.map
      (λ d. (
        d.0,
        record p {
          config = config_deinit p.config;
          log = log_deinit p.config.cfg.logfile p.log;
          server = record p.server {
            transport = freed;
            globals = d.1;
            files = record p.server.files { registry = Devices.deinit p.server.files.registry };
          };
          recv_thread_status = false;
        },
      ))
      (Transport.deinit deleted p.server.transport p.server.globals)
