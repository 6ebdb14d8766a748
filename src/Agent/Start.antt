-- ===== src/Agent/Start.antt =====
-- agent/rmt_agent.c: `rmt_agent_configure`, `rmt_agent_init` and `rmt_agent_deinit`, with the inits of
-- agent/devinfo_agent.c and agent/datainfo_agent.c.
pub mod Ready
use mathlib.Core.Option
use rmt_library.Common.{
  ℕ, Bool, true, false, if◌then◌else◌, Option, none, some, List, [], Bytes, ℤ, pos, minus_one,
  is_neg,
}
use rmt_library.Network.{Interface}
use rmt_library.Config as Config
use rmt_library.Config.{Outside, fits40, config_deinit, runtime_init}
use rmt_library.Logger.{Log, log_init, log_deinit}
use rmt_library.Transport as Transport
use rmt_library.Transport.{freed, non_null, Answers}
use rmt_library.Agent.Info.{DataFunc}
use rmt_library.Agent.Files.{FileFunc, Disk}
use rmt_library.Agent.Queue.{Queue}
use rmt_library.Agent.Requests.{Setup}
use rmt_library.Agent.Life.{Agent, InfoState}

-- all globals of an agent's process
pub record Process (W : Type 0) : Type 0 where
  pub config : Config.Globals
  pub log : Log
  pub setup : Setup W
  pub agent : Agent W

-- what a start finds outside, and what the user passes to it
pub record Platform (W : Type 0) : Type 0 where
  pub outside : Outside
  pub interfaces : List Interface
  pub address : Bytes → Bytes
  pub log_opens : Bool
  pub created : ℤ
  pub answers : Answers
  pub data_funcs : List (DataFunc W)
  pub file_funcs : List (FileFunc W)

-- `rmt_agent_cfg`; a null interface is `none`.
pub record AgentCfg : Type 0 where
  pub net_interface : Option Bytes
  pub device_id : ℕ

-- `devinfo_agent_init`: the text of the user's function is forgotten.
abbrev pub devinfo_init : InfoState → InfoState
devinfo_init s = record s { dev = record s.dev { devinfo = [] } }

-- `datainfo_agent_init` on the queue: all messages become null.
abbrev pub queue_init : Queue → Queue
queue_init q = record q { slots = λ i. none }

module _ {W : Type 0} where
  -- `rmt_agent_configure`; a null configuration is `none`.
  unfoldable pub agent_configure : Outside → Option AgentCfg → Process W → Option (ℤ × Process W)
  agent_configure env config p = elim (Config.config_init env p.config) [
    | none ↦ none
    | some g ↦
        let done =
          λ (c : Config.Config). some (pos 0, record p { config = record g { cfg = c } }) in
        (elim config [
          | none ↦ done g.cfg
          | some given ↦
              let c = record g.cfg { device_id = given.device_id } in
              (elim given.net_interface [
                | none ↦ done c
                | some name ↦ if fits40 name then done (record c { net_interface = name }) else none
              ])
        ])
  ]

  -- the globals in front of `dds_transport_config_init`
  unfoldable pub prepared : Platform W → Config.Globals → Process W → Process W
  prepared env g p =
      let (g', r) = runtime_init env.interfaces env.address g p.agent.runtime in
      record p {
        config = g';
        log = log_init g'.cfg.logfile env.log_opens p.log;
        setup = record p.setup {
          my_id = g'.cfg.device_id;
          data_funcs = env.data_funcs;
          file_funcs = env.file_funcs;
        };
        agent = record p.agent {
          runtime = r;
          info = devinfo_init p.agent.info;
          requests = record p.agent.requests { queue = queue_init p.agent.requests.queue };
        };
      }

  -- `rmt_agent_init`
  unfoldable pub init : Platform W → Process W → Option (ℤ × Process W)
  init env p = elim (Config.config_init env.outside p.config) [
    | none ↦ none
    | some g ↦
        let q = prepared env g p in
        let (code, made) =
          Transport.config_init env.created q.config.cfg.domain_id q.agent.globals in
        if is_neg code
        then some (minus_one, record q { agent = record q.agent { globals = made } })
        else (elim (Transport.agent_init env.answers made) [
          | none ↦ none
          | some (t, g') ↦ some (
            if non_null t then pos 0 else minus_one,
            record q { agent = record q.agent { transport = t; globals = g' } },
          )
        ])
  ]

  -- `rmt_agent_deinit`, with the answer of `dds_delete`
  unfoldable pub deinit : ℤ → Process W → Option (ℤ × Process W)
  deinit deleted p =
      Option.map
        (λ d. (
          d.0,
          record p {
            config = config_deinit p.config;
            log = log_deinit p.config.cfg.logfile p.log;
            agent = record p.agent { transport = freed; globals = d.1 };
          },
        ))
        (Transport.deinit deleted p.agent.transport p.agent.globals)
