-- ===== src/Server/Run.antt =====
-- A whole server process in server/rmt_server.c while it is up: the calls of clients, the turns of the
-- receive thread and what the listeners hear, one after another in any order.
pub mod Safe
use mathlib.Core.Option
use rmt_library.Common.{
  ℕ, zero, ◌+◌, ◌≤◌, ◌<◌, ◌≡◌, ◌≢◌, ◌^◌, refl, Option, none, some, List, [], ◌∷◌, Bool, Bytes,
  length, All, arith,
}
use rmt_library.Types.{DeviceMsg, DataInfo, Entry, Request, get, set_same_value}
use rmt_library.Transport.{Taken}
use rmt_library.DevInfo.{Node, Registry}
use rmt_library.DevInfo.Lost as Lost
use rmt_library.DevInfo.Lost.{hear}
use rmt_library.DataInfo.{Env, Outcome, fault, pending, finished, request}
use rmt_library.DataInfo.Wait.{gathered}
use rmt_library.DataInfo.Calls.{set_request}
use rmt_library.Server.{
  Server, Surroundings, turn, create_device_list, get_info, set_info, set_info_with_same_value,
  send, receive, get_result,
}
use rmt_library.Server.Turn.{IsHealthy}

-- a turn of the thread, something that a listener hears, or a call of the API, each with what it is answered
pub data Event : Type 0 where
  thread : Surroundings → Event
  listener : Lost.Event → Event
  list : (ℕ → Bool) → Node → List (Taken DeviceMsg) → Event
  query : Env → List ℕ → Bytes → Event
  write : Env → List DataInfo → Event
  write_same : Env → List ℕ → Bytes → Event
  export_file : ℕ → ℕ → List ℕ → Bytes → Bytes → Bytes → ℕ → Event
  fetch_file : ℕ → ℕ → ℕ → Bytes → Bytes → Event
  ask_result : ℕ → Event

-- the server behind a call that waits for replies; a wait that faults is a fault
abbrev pub behind : Option (Option (Request × Outcome (List Entry)) × Server) → Option Server
behind none = none
behind (some (none, s)) = some s
behind (some (some (req, fault), s)) = none
behind (some (some (req, pending), s)) = some s
behind (some (some (req, finished l), s)) = some s

pub step : Event → Server → Option Server
step (thread env) s = turn env s
step (listener e) s =
    some (record s { files = record s.files { registry = hear e s.files.registry } })
step (list malloc_ok fresh takes) s =
    Option.map (λ r. r.1) (create_device_list malloc_ok fresh takes s)
step (query env ids keys) s = behind (get_info env ids keys s)
step (write env devs) s = behind (set_info env devs s)
step (write_same env ids values) s = behind (set_info_with_same_value env ids values s)
step (export_file seq now ids callback filename file file_len) s =
    Option.map (λ r. r.1) (send seq now ids callback filename file file_len s)
step (fetch_file seq now id callback filename) s =
    Option.map (λ r. r.1) (receive seq now id callback filename s)
step (ask_result id) s = Option.map (λ r. r.1) (get_result id s)

unfoldable pub run : List Event → Server → Option Server
run [] s = some s
run (e ∷ events) s = elim (step e s) [ none ↦ none | some s' ↦ run events s' ]
