-- ===== src/Tests/Servers.antt =====
-- Runs of server/rmt_server.c: a server whose interface changes, with and without a call in progress.
use rmt_library.Common.{
  List, ℕ, length, ◌+◌, ◌≡◌, refl, true, false, some, none, [], ◌∷◌, pos, minus_one, arith, inl,
  inr,
}
use rmt_library.Types.{DeviceMsg, status_done, status_server_error, import, empty_result}
use rmt_library.Transport.{live, made, try_recv, Taken}
use rmt_library.DevInfo.{Registry}
use rmt_library.DevInfo as Devices
use rmt_library.DevInfo.Status.{Good}
use rmt_library.DevInfo.Lookup.{lookup}
use rmt_library.DevInfo.Ids.{Distinct}
use rmt_library.DevInfo.Ids as Ids
use rmt_library.DevInfo.Loops.{infos}
use rmt_library.DataInfo.{Env}
use rmt_library.FileTransfer as Files
use rmt_library.FileTransfer.{State, started, tick}
use rmt_library.FileTransfer.Start.{send_request, AllRunning}
use rmt_library.Server.{
  Server, stat_stop, stat_running, Surroundings, poll, update_devices, turn, create_device_list,
  get_info, set_info, set_info_with_same_value, send, receive, get_result,
}
use rmt_library.Server.Turn.{IsValid}
use rmt_library.Server.Change.{turn-IsValid, turn_waits, turn_follows, fresh_globals}
use rmt_library.Server.Api.{IsUp, stopped_refused, send_begins, get_result_lem}
use rmt_library.Server.Listing.{find_info, latest, create_device_list_up}
use rmt_library.Server.Race.{
  Shared, Reach, here, next, AnyStep, IsPatient, IsCareful, quiet, has_transport, at_work, pass,
  load, enter, finish, leave, stop, clear, free, by_call, by_thread, use_after_free, lost_update,
  passed, raising, working, lowering, stopping, freeing, gone,
}
use rmt_library.Server.Race.Safe.{no_use_after_free}
use rmt_library.Tests.Registry.{both, fresh, robot}
use rmt_library.Tests.Transfers.{idle, registry-Good, plenty, ids}
use rmt_library.Tests.Transports.{good}

abbrev pub server : Server
server = record {
  transport = live (made good);
  status = stat_running;
  using_api = 0;
  files = idle;
  globals = record { domain = pos 5; domain_id = pos 0; participant_num = 1 };
  runtime = record { net_interface = b'e' ∷ []; net_ip = b'1' ∷ [] };
}

pub server-IsValid : IsValid server
server-IsValid = record {
  files = record { registry = registry-Good; phase = inl refl };
  transport = inr (made good, refl, refl);
}

pub server-IsUp : IsUp server
server-IsUp = record { transport = made good; there = refl; running = refl; fits = omega arith }

-- the interface is now "w"
abbrev pub env : Surroundings
env = record {
  fresh = fresh;
  devices = [];
  feed = [];
  malloc_ok = plenty;
  junk = empty_result;
  reply_timeout = 3;
  now = 20;
  auto_detect_interface = true;
  interface = b'w' ∷ [];
  ip = b'2' ∷ [];
  domain_id = pos 0;
  deleted = pos 0;
  created = pos 6;
  answers = good;
}

turn-IsValid_test : (s' : Server) × (turn env server ≡ some s') × IsValid s'
turn-IsValid_test = turn-IsValid env server refl server-IsValid (omega arith)

-- the same server while a call is counted
abbrev in_use : Server
in_use = record server { using_api = 1 }

in_use_polled : poll env in_use ≡ some in_use
unfolding poll update_devices try_recv tick
in_use_polled = refl

polled : poll env server ≡ some server
unfolding poll update_devices try_recv tick
polled = refl

turn_waits_test : turn env in_use ≡ some (record in_use { status = stat_stop })
turn_waits_test = turn_waits env in_use in_use in_use_polled refl

turn_follows_example :
    turn env server
    ≡ some (record {
      transport = live (made good);
      status = stat_running;
      using_api = 0;
      files = record { registry = Devices.init; transfer = Files.init idle.transfer };
      globals = fresh_globals env;
      runtime = record { net_interface = b'w' ∷ []; net_ip = b'2' ∷ [] };
    })
turn_follows_example =
    turn_follows env server server refl refl refl refl polled server-IsValid refl refl refl

abbrev stopped : Server
stopped = record server { status = stat_stop }

abbrev pub request_env : Env
request_env = record { seq = 1; start_time = 1; reply_timeout = 3; rounds = [] }

stopped_refused_test :
    (create_device_list plenty fresh [] stopped ≡ some (some (0, none), stopped))
    × (get_info request_env ids [] stopped ≡ some (none, stopped))
    × (set_info_with_same_value request_env ids [] stopped ≡ some (none, stopped))
    × (set_info request_env [] stopped ≡ some (none, stopped))
    × (send 1 2 ids [] [] [] 0 stopped ≡ some ((minus_one, none), stopped))
    × (receive 1 2 7 [] [] stopped ≡ some ((minus_one, none), stopped))
    × (get_result 7 stopped ≡ some ((status_server_error, none), stopped))
stopped_refused_test =
    stopped_refused plenty fresh [] request_env ids [] [] [] [] 1 2 7 0 stopped refl

send_begins_test :
    (f : State) × (send 43 11 ids (b'c' ∷ []) (b'f' ∷ []) (1 ∷ []) 1 server
      ≡ some (
        (pos 0, some (send_request 43 ids (b'c' ∷ []) (b'f' ∷ []) (1 ∷ []) 1)),
        record server { files = f },
      ))
    × Good f.registry
    × AllRunning ids both f.registry
    × (f.transfer ≡ started import 43 11 ids)
send_begins_test =
    send_begins 43 11 1 ids (b'c' ∷ []) (b'f' ∷ []) (1 ∷ []) server (made good) refl refl
      (omega arith) registry-Good refl (omega arith) (omega arith)

get_result_lem_test : get_result 7 server ≡ some ((status_done, some empty_result), server)
unfolding lookup
get_result_lem_test = get_result_lem 7 server refl (omega arith) registry-Good

-- a whole call, and then the thread stops the server and frees the transport
abbrev shut : Shared
shut = record { status = stat_stop; using_api = 0; phase = gone; calls = [] }

shut_run : Reach IsCareful quiet shut
shut_run =
    let s₁ = record quiet { calls = passed ∷ [] } in
    let s₂ = record quiet { calls = raising 0 ∷ [] } in
    let s₃ = record quiet { using_api = 1; calls = working ∷ [] } in
    let s₄ = record quiet { using_api = 1; calls = lowering 1 ∷ [] } in
    let s₅ = record quiet { status = stat_stop; phase = stopping } in
    let s₆ = record s₅ { phase = freeing } in
    let r₁ = next here (by_call (pass quiet refl)) refl in
    let r₂ = next r₁ (by_call (load s₁ [] [] refl)) tt in
    let r₃ = next r₂ (by_call (enter s₂ 0 [] [] refl)) tt in
    let r₄ = next r₃ (by_call (finish s₃ [] [] refl)) tt in
    let r₅ = next r₄ (by_call (leave s₄ 1 [] [] refl)) tt in
    let r₆ = next r₅ (by_thread (stop quiet refl)) tt in
    let r₇ = next r₆ (by_thread (clear s₅ refl refl)) tt in next r₇ (by_thread (free s₆ refl)) tt

no_use_after_free_example : shut.calls ≡ []
no_use_after_free_example = no_use_after_free shut_run refl

use_after_free_example :
    (t : Shared) × Reach AnyStep quiet t × (has_transport t.phase ≡ false) × (at_work t.calls ≡ 1)
use_after_free_example = use_after_free quiet refl refl refl

lost_update_example :
    (t : Shared) × Reach IsPatient quiet t × (has_transport t.phase ≡ false) × (at_work t.calls ≡ 1)
lost_update_example = lost_update quiet refl refl refl tt

-- a known device speaks twice, a new one once, and then an answer is empty
abbrev said : ℕ → List ℕ → Taken DeviceMsg
said id text = record {
  rc = pos 1;
  valid_data = true;
  sample = record (robot id) { host = text };
  publication_handle = id + 80;
}

abbrev announced : List (Taken DeviceMsg)
announced = said 9 (1 ∷ []) ∷ said 12 [] ∷ said 9 (2 ∷ []) ∷ record (said 13 []) { rc = pos 0 } ∷ []

create_device_list_up_test :
    (r : Registry) × (create_device_list plenty fresh announced server
      ≡ some (
        some (length (infos r.dev_head), some (infos r.dev_head)),
        record server { files = record idle { registry = r } },
      ))
    × Good r
    × Distinct (Ids.ids r.dev_head)
    × ((j : ℕ)
        → find_info j (infos r.dev_head)
          ≡ elim (latest j (said 9 (1 ∷ []) ∷ said 12 [] ∷ said 9 (2 ∷ []) ∷ [])) [
            | none ↦ find_info j (infos both.dev_head)
            | some m ↦ some m
          ])
create_device_list_up_test =
    create_device_list_up plenty fresh announced server-IsUp registry-Good (omega arith)
