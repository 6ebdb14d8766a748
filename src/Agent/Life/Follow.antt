-- ===== src/Agent/Life/Follow.antt =====
-- How `rmt_agent_running` of agent/rmt_agent.c follows the interface, and when it loses its transport.
use rmt_library.Common.{
  ◌+◌, ◌-◌, ◌%◌, ◌^◌, ◌≡◌, refl, Bool, true, false, ◌&&◌, ◌||◌, not, none, [], str_eq, minus_one,
  pos, is_neg, arith, some, List,
}
use rmt_library.Transport.{
  Globals, Transport, null, live, config_init, deinit, is_precondition_not_met,
}
use rmt_library.Types.{Reply}
use rmt_library.Agent.Requests as Requests
use rmt_library.Agent.Requests.{Setup}
use rmt_library.Agent.Life.{
  Agent, Surroundings, free_transport, bring_up, follow, updates, running, update_info,
}

-- the interface or its address is another one than at the last start
abbrev pub is_due : {W : Type 0} → Surroundings → Agent W → Bool
is_due env s =
    env.auto_detect_interface
    && (not (str_eq env.interface s.runtime.net_interface) || not (str_eq env.ip s.runtime.net_ip))

module _ {W : Type 0} (a : Setup W) where
  -- An agent with a transport whose interface has changed while the domain cannot be made again
  -- frees its transport and returns -1, but keeps the old interface on record. If the old
  -- interface then comes back, it sees no change and follows its null transport.
  pub lost_transport :
      (env back : Surroundings) (s : Agent W) (t : Transport)
      → s.transport ≡ live t
      → is_due env s ≡ true
      → (is_neg env.created && not (is_precondition_not_met env.created)) ≡ true
      → is_due back s ≡ false
      → (s' : Agent W) × (running a env s ≡ some (minus_one, none, [], s'))
        × (s'.transport ≡ null)
        × (running a back s' ≡ none)
  unfolding running follow free_transport bring_up updates config_init deinit
  lost_transport env back s t there due failed same =
      let g : Globals = record {
        domain = env.created;
        domain_id = env.domain_id;
        participant_num = (s.globals.participant_num + (2 ^ 32 - 1)) % 2 ^ 32;
      } in
      let lost = record s { transport = null; globals = g } in
      (lost, ground (arith, there, due, failed), refl, ground (arith, same))

  -- a call of an agent with a transport and an unchanged interface
  pub running_steady :
      (env : Surroundings) (s : Agent W) (t : Transport) {out : List Reply} {r : Requests.State W}
      → s.transport ≡ live t
      → is_due env s ≡ false
      → Requests.update a env.takes s.requests ≡ some (out, r)
      → running a env s
        ≡ some (
          pos 0,
          (update_info a.my_id env.model env.version env.device s.info).0,
          out,
          record s {
            info = (update_info a.my_id env.model env.version env.device s.info).1;
            requests = r;
          },
        )
  unfolding running follow updates
  running_steady env s t there same e = ground (arith, there, same, e)
