-- ===== src/Agent/Life.antt =====
-- agent/devinfo_agent.c and agent/rmt_agent.c: what an agent publishes of its device, and one call of
-- `rmt_agent_running`, which follows the network interface.
pub mod Publish
pub mod Follow
use mathlib.Core.Option
use rmt_library.Common.{
  ℕ, Bool, true, false, ◌||◌, ◌&&◌, not, if◌then◌else◌, Option, none, some, List, [], Bytes, str_eq,
  ℤ, pos, minus_one, is_neg,
}
use rmt_library.Types.{DeviceMsg, Request, Reply, Runtime}
use rmt_library.Transport.{
  Taken, Pointer, null, live, freed, non_null, Globals, Answers, config_init, agent_init, deinit,
}
use rmt_library.Agent.Requests as Requests
use rmt_library.Agent.Requests.{Setup}

-- `device_info` of agent/devinfo_agent.c without the model, and `g_devinfo`
pub record Device : Type 0 where
  pub hostname : Bytes
  pub ip : Bytes
  pub mac : Bytes
  pub devinfo : Bytes

-- `g_dev`, `g_devinfo` and `g_info_change`
pub record InfoState : Type 0 where
  pub dev : Device
  pub info_change : Bool

-- the statics at the start of the program
unfoldable pub init : InfoState
init = record {
  dev = record { hostname = []; ip = []; mac = []; devinfo = [] };
  info_change = true;
}

-- `memcmp` of the two structures, one of which was copied from the other, and `strcmp`
abbrev pub same_device : Device → Device → Bool
same_device a b =
    str_eq a.hostname b.hostname
    && (str_eq a.ip b.ip && (str_eq a.mac b.mac && str_eq a.devinfo b.devinfo))

-- `get_device_info`, with what the host, the network and the user's function say now. The model is read
-- anew each time, but a change of it does not count.
unfoldable pub get_device_info : Device → InfoState → InfoState
get_device_info now s =
    if same_device s.dev now then s else record { dev = now; info_change = true }

-- `g_msg`
abbrev pub message : ℕ → Bytes → Bytes → Device → DeviceMsg
message id model version dev = record {
  device_id = id;
  model = model;
  host = dev.hostname;
  ip = dev.ip;
  mac = dev.mac;
  rmt_version = version;
  devinfo = dev.devinfo;
}

-- `devinfo_agent_update`: the message that is sent, if there is one
unfoldable pub update_info : ℕ → Bytes → Bytes → Device → InfoState → Option DeviceMsg × InfoState
update_info id model version now s =
    let s' = get_device_info now s in
    if s'.info_change
    then (some (message id model version s'.dev), record s' { info_change = false })
    else (none, s')

-- the state of an agent
pub record Agent (W : Type 0) : Type 0 where
  pub transport : Pointer
  pub info : InfoState
  pub requests : Requests.State W
  pub globals : Globals
  pub runtime : Runtime

-- what the platform answers in one call
pub record Surroundings : Type 0 where
  pub auto_detect_interface : Bool
  pub interface : Bytes
  pub ip : Bytes
  pub domain_id : ℤ
  pub deleted : ℤ
  pub created : ℤ
  pub answers : Answers
  pub device : Device
  pub model : Bytes
  pub version : Bytes
  pub takes : List (Taken Request)

module _ {W : Type 0} where
  -- "Free the communication resource"
  pub free_transport : Surroundings → Agent W → Option (Agent W)
  free_transport env s =
      if non_null s.transport
      then Option.map (λ d. record s { transport = null; globals = d.1 })
          (deinit env.deleted s.transport s.globals)
      else some s

  -- from `dds_transport_config_init` to the new interface, with the code of a failure
  pub bring_up : Surroundings → Agent W → Option (ℤ × Agent W)
  bring_up env s =
      let (code, g) = config_init env.created env.domain_id s.globals in
      if is_neg code
      then some (minus_one, record s { globals = g })
      else (elim (agent_init env.answers g) [
        | none ↦ none
        | some (p, g') ↦
            let up = record s { transport = p; globals = g' } in
            some (
              if non_null p
              then (
                pos 0,
                record up { runtime = record { net_interface = env.interface; net_ip = env.ip } },
              )
              else (minus_one, up))
      ])

  -- the part of `rmt_agent_running` in front of the updates
  pub follow : Surroundings → Agent W → Option (ℤ × Agent W)
  follow env s =
      let changed =
        not (str_eq env.interface s.runtime.net_interface)
        || not (str_eq env.ip s.runtime.net_ip) in
      if env.auto_detect_interface && changed
      then (elim (free_transport env s) [ none ↦ none | some f ↦ bring_up env f ])
      else some (pos 0, s)

  -- the two updates, through a transport
  pub updates : Setup W → Surroundings → Agent W → Option (Option DeviceMsg × List Reply × Agent W)
  updates a env s = elim s.transport [
    | null ↦ none
    | freed ↦ none
    | live t ↦
        let (sent, info) = update_info a.my_id env.model env.version env.device s.info in
        Option.map (λ r. (sent, r.0, record s { info = info; requests = r.1 }))
          (Requests.update a env.takes s.requests)
  ]

  -- `rmt_agent_running`: its code, the device info that it publishes, and the replies that it sends
  pub running :
      Setup W → Surroundings → Agent W → Option (ℤ × Option DeviceMsg × List Reply × Agent W)
  running a env s = elim (follow env s) [
    | none ↦ none
    | some (code, s') ↦
        let rest = updates a env s' in
        if is_neg code
        then some (code, none, [], s')
        else Option.map (λ r. (pos 0, r.0, r.1, r.2)) rest
  ]
