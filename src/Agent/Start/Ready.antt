-- ===== src/Agent/Start/Ready.antt =====
-- What `rmt_agent_init` of agent/rmt_agent.c leaves, and the first call of `rmt_agent_running` behind it.
use rmt_library.Common.{
  ◌≤◌, ◌≡◌, refl, true, false, ◌&&◌, ◌||◌, not, some, List, [], pos, is_neg, arith, length, str_eq,
}
use rmt_library.Types.{Reply, Runtime}
use rmt_library.Transport as Transport
use rmt_library.Transport.{Taken, Pointer, live, freed, made, Answers, is_precondition_not_met}
use rmt_library.Transport.Life.{agent_init_outcomes, topic_failed, agent_endpoint_failed, counted}
use rmt_library.Transport.Receive.{samples}
use rmt_library.Config as Config
use rmt_library.Config.{runtime_init}
use rmt_library.Agent.Queue.Fifo.{Holds}
use rmt_library.Agent.Requests as Requests
use rmt_library.Agent.Requests.{Setup}
use rmt_library.Agent.Requests.Update.{serve, update_lem}
use rmt_library.Agent.Life.{Agent, Surroundings, message, running}
use rmt_library.Agent.Life.Publish.{update_info-news}
use rmt_library.Agent.Life.Follow.{running_steady}
use rmt_library.Agent.Start.{Process, Platform, init, prepared, queue_init}

module _ {W : Type 0} where
  -- the configuration and the interface that a start settles on
  abbrev pub settled : Platform W → Config.Globals → Process W → Config.Globals × Runtime
  settled env g p = runtime_init env.interfaces env.address g p.agent.runtime

  -- DDS makes the domain and every entity of an agent, for which there is memory.
  abbrev pub IsHealthy : Platform W → Type 0
  IsHealthy env =
      (env.answers.malloc_ok ≡ true)
      × ((is_neg env.created && not (is_precondition_not_met env.created)) ≡ false)
      × ((is_neg env.answers.participant
            || (topic_failed env.answers || agent_endpoint_failed env.answers))
          ≡ false)

  -- the process behind a start
  abbrev pub started : Platform W → Config.Globals → Process W → Process W
  started env g p =
      let q = prepared env g p in
      record q {
        agent = record q.agent {
          transport = live (made env.answers);
          globals =
              counted (Transport.config_init env.created q.config.cfg.domain_id q.agent.globals).1;
        };
      }

  init_lem :
      (env : Platform W) (p : Process W) (g : Config.Globals)
      → Config.config_init env.outside p.config ≡ some g
      → IsHealthy env
      → init env p ≡ some (pos 0, started env g p)
  unfolding init Transport.config_init
  init_lem env p g e healthy = ground (
    arith,
    e,
    healthy.0,
    healthy.1,
    healthy.2,
    agent_init_outcomes env.answers (record (prepared env g p).agent.globals {
      domain = env.created;
      domain_id = (prepared env g p).config.cfg.domain_id;
    }),
  )

  Holds-init : (q : Requests.State W) → Holds q.queue [] → Holds (queue_init q.queue) []
  Holds-init q h = record { front_in = h.front_in; room = h.room; rear_at = h.rear_at; stored = tt }

  -- The start of an agent with an empty queue and news to publish (as at the start of the program), and its first
  -- call of `rmt_agent_running`: if the configuration can be read, DDS and the memory answer well,
  -- the interface is still the one that the start settled on, and the requests in its reader give at
  -- most fifteen replies without a fault, then both return 0. The call publishes the device info,
  -- with the ID that the start settled on, and sends exactly the replies to the requests that name
  -- that ID; behind it, nothing is left to publish and the queue is empty.
  pub agent_start :
      (env : Platform W) (p : Process W) (g : Config.Globals) (around : Surroundings)
      (out : List Reply) (w : W)
      → Config.config_init env.outside p.config ≡ some g
      → IsHealthy env
      → Holds p.agent.requests.queue []
      → p.agent.info.info_change ≡ true
      → (around.auto_detect_interface
          && (not (str_eq around.interface (settled env g p).1.net_interface)
              || not (str_eq around.ip (settled env g p).1.net_ip)))
        ≡ false
      → serve (prepared env g p).setup (samples around.takes) p.agent.requests.world ≡ some (out, w)
      → length out ≤ 15
      → (q : Process W) × (s : Agent W) × (init env p ≡ some (pos 0, q))
        × (q.setup.my_id ≡ (settled env g p).0.cfg.device_id)
        × (running q.setup around q.agent
            ≡ some (
              pos 0,
              some (
                  message
                    (settled env g p).0.cfg.device_id
                    around.model
                    around.version
                    around.device),
              out,
              s,
            ))
        × (s.info.info_change ≡ false)
        × Holds s.requests.queue []
        × (s.requests.world ≡ w)
  unfolding prepared
  agent_start env p g around out w e healthy empty news same served few =
      let q = started env g p in
      let (r, done, empty', world) =
        update_lem q.setup around.takes q.agent.requests out w (Holds-init p.agent.requests empty)
          served few in
      let sent =
        update_info-news q.setup.my_id around.model around.version around.device q.agent.info
          news in
      (
        q,
        record q.agent { info = record { dev = around.device; info_change = false }; requests = r },
        init_lem env p g e healthy,
        refl,
        rw sent at (running_steady q.setup around q.agent (made env.answers) refl same done),
        refl,
        empty',
        world,
      )
