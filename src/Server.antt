-- ===== src/Server.antt =====
-- server/rmt_server.c: the guard of the API, and the receive thread, which follows the network interface.
-- A call is one step here; the interleaving of calls with the thread is in Server/Race.
pub mod Turn
pub mod Change
pub mod Api
pub mod Listing
pub mod Race
pub mod Single
pub mod Order
pub mod Run
pub mod Start
use mathlib.Core.Option
use rmt_library.Common.{
  ℕ, ◌+◌, ◌-◌, ◌%◌, ◌^◌, Bool, true, false, ◌||◌, not, if◌then◌else◌, ◌==◌, Option, none, some,
  List, [], ◌∷◌, Bytes, str_eq, ℤ, pos, minus_one, is_neg,
}
use rmt_library.Types.{
  Runtime, DeviceMsg, DeviceInfo, DataInfo, Entry, Request, Reply, TransferStatus,
  status_server_error, TransferResult,
}
use rmt_library.Transport.{
  Taken, dev_info, try_recv, Pointer, null, live, freed, non_null, Globals, Answers, config_init,
  server_init, deinit,
}
use rmt_library.DevInfo as Devices
use rmt_library.DevInfo.{Node, Registry, add_device, list_devices, get_status}
use rmt_library.DataInfo as Info
use rmt_library.DataInfo.{Env, Outcome}
use rmt_library.FileTransfer as Files
use rmt_library.FileTransfer.{State, tick, send_file, recv_file, is_transferring}

-- `server_status`
pub data ServerStatus : Type 0 where
  stat_stop stat_running : ServerStatus

abbrev pub is_up : ServerStatus → Bool
is_up stat_running = true
is_up stat_stop = false

-- `g_svr_info` without the thread, beside the globals of the other files
pub record Server : Type 0 where
  pub transport : Pointer
  pub status : ServerStatus
  pub using_api : ℕ
  pub files : State
  pub globals : Globals
  pub runtime : Runtime

-- what a callee finds behind a transport pointer: null and freed pointers fault
abbrev pub through {ℓ} : {A : Type ℓ} → Pointer → Option A → Option A
through null o = none
through freed o = none
through (live t) o = o

-- what each function of the API does around its call: nothing and a fixed answer while the server is
-- stopped, and else the call with `using_api` raised
pub guarded {ℓ} : {A : Type ℓ} → A → (Server → Option (A × Server)) → Server → Option (A × Server)
guarded refused call s =
    let called = call (record s { using_api = (s.using_api + 1) % 2 ^ 64 }) in
    if is_up s.status
    then Option.map (λ r. (r.0, record r.1 { using_api = (r.1.using_api + (2 ^ 64 - 1)) % 2 ^ 64 }))
        called
    else some (refused, s)

-- `devinfo_server_update`, with the return code
unfoldable pub update_devices : Node → List (Taken DeviceMsg) → Registry → Option (ℤ × Registry)
update_devices fresh takes r =
    elim (try_recv dev_info (λ msg handle r'. some (add_device fresh msg handle r')) takes r) [
      | none ↦ none
      | some (code, r', rest) ↦ some (code, r')
    ]

-- `rmt_server_create_device_list`. A null pointer is the `none` of an array; where the receive failed, neither
-- the array nor the number is ever set.
pub create_device_list :
    (ℕ → Bool)
    → Node
    → List (Taken DeviceMsg)
    → Server
    → Option (Option (ℕ × Option (List DeviceInfo)) × Server)
create_device_list malloc_ok fresh takes = guarded (some (0, none)) (λ s.
    through s.transport (elim (update_devices fresh takes s.files.registry) [
      | none ↦ none
      | some (code, r) ↦
          let s' = record s { files = record s.files { registry = r } } in
          let listed = Option.map (λ l. (some l, s')) (list_devices malloc_ok r) in
          if is_neg code then some (none, s') else listed
    ]))

-- `rmt_server_get_info`, `rmt_server_set_info_with_same_value` and `rmt_server_set_info`: the request and what
-- the wait for its replies comes to, or nothing
pub get_info :
    Env → List ℕ → Bytes → Server → Option (Option (Request × Outcome (List Entry)) × Server)
get_info env id_list key_list =
    guarded none (λ s. through s.transport (some (some (Info.get_info env id_list key_list), s)))

pub set_info_with_same_value :
    Env → List ℕ → Bytes → Server → Option (Option (Request × Outcome (List Entry)) × Server)
set_info_with_same_value env id_list value_list = guarded none (λ s.
    through s.transport (some (some (Info.set_info_with_same_value env id_list value_list), s)))

pub set_info :
    Env → List DataInfo → Server → Option (Option (Request × Outcome (List Entry)) × Server)
set_info env devs =
    guarded none (λ s. through s.transport (Option.map (λ r. (some r, s)) (Info.set_info env devs)))

-- `rmt_server_send_file` and `rmt_server_recv_file`; a busy server does not touch its transport.
pub send :
    ℕ → ℕ → List ℕ → Bytes → Bytes → Bytes → ℕ → Server → Option ((ℤ × Option Request) × Server)
send seq now ids callback filename file file_len =
    guarded (minus_one, none)
      (λ s.
        let sent =
          Option.map (λ r. ((r.0, r.1), record s { files = r.2 }))
            (send_file seq now ids callback filename file file_len s.files) in
        if is_transferring s.files.transfer then sent else through s.transport sent)

pub receive : ℕ → ℕ → ℕ → Bytes → Bytes → Server → Option ((ℤ × Option Request) × Server)
receive seq now id callback filename =
    guarded (minus_one, none)
      (λ s.
        let sent =
          Option.map (λ r. ((r.0, r.1), record s { files = r.2 }))
            (recv_file seq now id callback filename s.files) in
        if is_transferring s.files.transfer then sent else through s.transport sent)

-- `rmt_server_get_result`; a stopped server writes no result.
pub get_result : ℕ → Server → Option ((TransferStatus × Option TransferResult) × Server)
get_result id =
    guarded (status_server_error, none)
      (λ s. Option.map (λ r. ((r.0, some r.1), s)) (get_status id s.files.registry))

-- `rmt_reinit_server`
abbrev pub reinit : Server → Server
reinit s = record s { status = stat_stop }

-- what the platform answers in one turn of the thread: the readers, the clock and the memory, the interface
-- (empty if there is none) with its address, and DDS
pub record Surroundings : Type 0 where
  pub fresh : Node
  pub devices : List (Taken DeviceMsg)
  pub feed : List (List (Taken Reply))
  pub malloc_ok : ℕ → Bool
  pub junk : TransferResult
  pub reply_timeout : ℕ
  pub now : ℕ
  pub auto_detect_interface : Bool
  pub interface : Bytes
  pub ip : Bytes
  pub domain_id : ℤ
  pub deleted : ℤ
  pub created : ℤ
  pub answers : Answers

-- the receives at the top of a turn
unfoldable pub poll : Surroundings → Server → Option Server
poll env s =
    if non_null s.transport
    then through s.transport (elim (update_devices env.fresh env.devices s.files.registry) [
      | none ↦ none
      | some (code, r) ↦
          Option.map (λ f. record s { files = f })
            (tick env.malloc_ok env.junk env.feed env.reply_timeout env.now
              (record s.files { registry = r }))
    ])
    else some s

-- "Free the communication resource"
pub free_transport : Surroundings → Server → Option Server
free_transport env s =
    if non_null s.transport
    then Option.map
        (λ d. record s {
          transport = null;
          files = record s.files { registry = Devices.deinit s.files.registry };
          globals = d.1;
        })
        (deinit env.deleted s.transport s.globals)
    else some s

-- from `dds_transport_config_init` to the end of the reinitialisation
pub bring_up : Surroundings → Server → Option Server
bring_up env s =
    let (code, g) = config_init env.created env.domain_id s.globals in
    let s' = record s { globals = g } in
    if is_neg code then some s' else (elim (server_init env.answers g) [
      | none ↦ none
      | some (p, g') ↦
          let up = record s' { transport = p; globals = g' } in
          some (
            if non_null p
            then record up {
              files = record { registry = Devices.init; transfer = Files.init s.files.transfer };
              runtime = record { net_interface = env.interface; net_ip = env.ip };
              status = stat_running;
            }
            else up)
    ])

-- the reinitialisation, if it is needed and nothing stands against it
pub follow : Surroundings → Server → Option Server
follow env s =
    let s' = record s { status = stat_stop } in
    let changed =
      not (str_eq env.interface s.runtime.net_interface)
      || (not (str_eq env.ip s.runtime.net_ip) || not (is_up s.status)) in
    if env.auto_detect_interface || not (is_up s.status)
    then if changed
      then if not (s.using_api == 0) || is_transferring s.files.transfer
        then some s'
        else if str_eq env.interface []
        then some s'
        else (elim (free_transport env s') [ none ↦ none | some f ↦ bring_up env f ])
      else some s
    else some s

-- one turn of `recv_thread_func`
pub turn : Surroundings → Server → Option Server
turn env s = elim (poll env s) [ none ↦ none | some s' ↦ follow env s' ]
