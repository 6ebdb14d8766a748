-- ===== src/Tests/Starts.antt =====
-- Runs of a start and an end of a server and of an agent, without a configuration file.
use rmt_library.Common.{
  ℕ, ◌+◌, ◌*◌, ◌≡◌, refl, true, false, some, none, [], ◌∷◌, Bytes, pos, minus_one, arith,
}
use rmt_library.Transport.{Answers, live, freed, null, made, send}
use rmt_library.DevInfo as Devices
use rmt_library.Config as Config
use rmt_library.Config.{Outside, codes, init_rmt_cfg, config_init, runtime_init}
use rmt_library.Logger.{closed}
use rmt_library.Network.{select_interface, select_from, get_ip, generate_id, best_from}
use rmt_library.Agent.Queue.Fifo.{Holds, init-Holds}
use rmt_library.Agent.Life as Life
use rmt_library.Agent.Life.{Agent, message, running}
use rmt_library.Agent.Requests.{handle}
use rmt_library.Agent.Requests.Update.{serve}
use rmt_library.Agent.Info.{find_key, read_value, add_answer, get_keys, get_reply, found_idx}
use rmt_library.Strings.{tokens_from, cut}
use rmt_library.DataInfo.{strcat}
use rmt_library.Transport.Receive.{samples}
use rmt_library.Server.{stat_running, get_info, set_info_with_same_value, create_device_list, turn}
use rmt_library.Server.Api.{IsUp}
use rmt_library.Server.Turn.{IsValid}
use rmt_library.Server.Start as Start
use rmt_library.Server.Start.{Process, Platform}
use rmt_library.Server.Start.Ready.{init_ready, init_dangling, settled}
use rmt_library.Server.Start.Ended.{deinit_leaves_api, restart_ready}
use rmt_library.Agent.Start as Begin
use rmt_library.Agent.Start.{prepared}
use rmt_library.Agent.Start.Ready.{agent_start}
use rmt_library.Tests.Agents as Agents
use rmt_library.Tests.Networks.{wlan, eth}
use rmt_library.Tests.Registry.{fresh}
use rmt_library.Tests.Transfers.{plenty}
use rmt_library.Tests.Servers.{server, server-IsValid, env, request_env}
use rmt_library.Tests.Transports.{good}

abbrev no_file : Outside
no_file = record { rmt_config = none; open_file = λ path. none }

abbrev unread : Config.Globals
unread = record { cfg = init_rmt_cfg; is_init = false }

abbrev read : Config.Globals
read = record unread { is_init = true }

defaults : (g : Config.Globals) → g.is_init ≡ false → config_init no_file g ≡ some read
unfolding config_init
defaults g e = ground (arith, e)

abbrev pub platform : Answers → Platform
platform answers = record {
  outside = no_file;
  interfaces = eth ∷ wlan ∷ [];
  address = λ name. b'1' ∷ name;
  log_opens = true;
  created = pos 5;
  answers = answers;
}

-- the statics of a server, and a process with a running server
abbrev pub at_rest : Process
at_rest = record {
  config = unread;
  log = closed;
  server = record server {
    transport = null;
    globals = record { domain = pos 0; domain_id = pos 0; participant_num = 0 };
  };
  recv_thread_status = false;
}

abbrev serving : Process
serving = record at_rest { config = read; server = server; recv_thread_status = true }

init_ready_example :
    (q : Process) × (Start.init (platform good) at_rest ≡ some (pos 0, q))
    × IsUp q.server
    × IsValid q.server
    × (q.server.transport ≡ live (made good))
    × (q.server.files.registry ≡ Devices.init)
    × (q.server.files.transfer.status ≡ 0)
    × (q.server.using_api ≡ 0)
    × (q.config ≡ (settled (platform good) read at_rest).0)
    × (q.server.runtime ≡ record { net_interface = codes "w0"; net_ip = codes "1w0" })
    × (q.recv_thread_status ≡ true)
unfolding runtime_init select_interface select_from get_ip generate_id best_from
init_ready_example = init_ready (platform good) at_rest read (defaults unread refl) refl refl refl

abbrev no_writer : Answers
no_writer = record good { writer = λ k. minus_one }

init_dangling_example :
    (q : Process) × (Start.init (platform no_writer) at_rest ≡ some (pos 0, q))
    × (q.server.status ≡ stat_running)
    × (q.server.transport ≡ freed)
    × (get_info request_env (7 ∷ []) [] q.server ≡ none)
    × (turn env q.server ≡ none)
init_dangling_example =
    init_dangling (platform no_writer) at_rest read (defaults unread refl) refl refl refl
      request_env (7 ∷ []) [] env

deinit_leaves_api_example :
    (q : Process) × (Start.deinit (pos 0) serving ≡ some (pos 0, q))
    × (get_info request_env (7 ∷ []) [] q.server ≡ none)
    × (set_info_with_same_value request_env (7 ∷ []) [] q.server ≡ none)
    × (create_device_list plenty fresh [] q.server ≡ none)
unfolding send
deinit_leaves_api_example =
    deinit_leaves_api (pos 0) serving (made good) request_env (7 ∷ []) [] plenty fresh [] refl refl

restart_ready_example :
    (q r : Process) × (Start.deinit (pos 0) serving ≡ some (pos 0, q))
    × (q.server.files.registry ≡ Devices.init)
    × (Start.init (platform good) q ≡ some (pos 0, r))
    × IsUp r.server
    × IsValid r.server
    × (r.server.files.registry ≡ Devices.init)
    × (r.config ≡ (settled (platform good) read q).0)
unfolding send Config.config_deinit
restart_ready_example =
    restart_ready (pos 0) (platform good) serving (made good) read refl refl server-IsValid
      (defaults (record read { is_init = false }) refl) refl refl

abbrev agent_platform : Begin.Platform Bytes
agent_platform = record {
  outside = no_file;
  interfaces = eth ∷ wlan ∷ [];
  address = λ name. b'1' ∷ name;
  log_opens = true;
  created = pos 5;
  answers = good;
  data_funcs = Agents.maps;
  file_funcs = [];
}

abbrev idle : Begin.Process Bytes
idle = record {
  config = unread;
  log = closed;
  setup = Agents.setup;
  agent = record Agents.agent {
    transport = null;
    globals = record { domain = pos 0; domain_id = pos 0; participant_num = 0 };
  };
}

-- the MAC of the first interface ends in 4, 5, 6
abbrev my_id : ℕ
my_id = (4 * 256 + 5) * 256 + 6

abbrev around : Life.Surroundings
around = record Agents.home {
  interface = codes "w0";
  ip = codes "1w0";
  takes = Agents.taken (7 ∷ my_id ∷ []) ∷ [];
}

served :
    serve (prepared agent_platform read idle).setup (samples around.takes) (b'v' ∷ [])
    ≡ some (record Agents.answer { device_id = my_id } ∷ [], b'v' ∷ [])
unfolding prepared runtime_init select_interface select_from get_ip generate_id best_from found_idx
    handle get_reply get_keys find_key tokens_from cut read_value add_answer strcat
served = refl

agent_start_example :
    (q : Begin.Process Bytes) × (s : Agent Bytes) × (Begin.init agent_platform idle
      ≡ some (pos 0, q))
    × (q.setup.my_id ≡ my_id)
    × (running q.setup around q.agent
        ≡ some (
          pos 0,
          some (message my_id [] [] (Agents.seen (b'1' ∷ []))),
          record Agents.answer { device_id = my_id } ∷ [],
          s,
        ))
    × (s.info.info_change ≡ false)
    × Holds s.requests.queue []
    × (s.requests.world ≡ b'v' ∷ [])
unfolding runtime_init select_interface select_from get_ip generate_id best_from Life.init
agent_start_example =
    agent_start agent_platform idle read around (record Agents.answer { device_id = my_id } ∷ [])
      (b'v' ∷ []) (defaults unread refl) (refl, refl, refl) init-Holds refl refl served
      (omega arith)
