-- ===== src/Tests/Runs.antt =====
-- A run of a whole server: the interface changes, a device is heard of, asked, lost, and sent a file.
use rmt_library.Common.{◌≡◌, refl, true, some, List, [], ◌∷◌, pos, arith, All}
use rmt_library.DevInfo.Lost.{subscription}
use rmt_library.DataInfo.{Env}
use rmt_library.Server.{Server}
use rmt_library.Server.Turn.{IsValid}
use rmt_library.Server.Run.{
  Event, thread, listener, list, query, write, write_same, export_file, fetch_file, ask_result, run,
}
use rmt_library.Server.Run.Safe.{IsAllowed, run_server-IsValid}
use rmt_library.Tests.Registry.{robot, fresh, fewer}
use rmt_library.Tests.Transfers.{plenty}
use rmt_library.Tests.Servers.{server, server-IsValid, env}

abbrev silent : Env
silent = record { seq = 42; start_time = 10; reply_timeout = 5; rounds = [] }

abbrev events : List Event
events =
    list plenty fresh
      (record { rc = pos 1; valid_data = true; sample = robot 12; publication_handle = 92 } ∷ [])
    ∷ query silent (12 ∷ 9 ∷ []) (b'k' ∷ [])
    ∷ write silent (record { device_id = 12; value_list = b'k' ∷ (b':' ∷ (b'v' ∷ [])) } ∷ [])
    ∷ write_same silent (12 ∷ []) (b'k' ∷ (b':' ∷ (b'v' ∷ [])))
    ∷ export_file 43 11 (12 ∷ []) (b'c' ∷ []) (b'f' ∷ []) (1 ∷ []) 1
    ∷ ask_result 12
    ∷ listener (subscription fewer)
    ∷ thread env
    ∷ fetch_file 44 12 9 (b'c' ∷ []) (b'f' ∷ [])
    ∷ thread (record env { now = 90 })
    ∷ []

events-IsAllowed : All IsAllowed events
events-IsAllowed = (
  tt,
  (
    omega arith,
    (
      (cc, omega arith, (omega arith, tt), omega arith),
      (omega arith, ((omega arith, omega arith), (tt, (tt, (refl, (omega arith, (refl, tt))))))),
    ),
  ),
)

run_server-IsValid_example :
    (s' : Server) × (run events server ≡ some s') × IsValid s' × (s'.using_api ≡ 0)
run_server-IsValid_example =
    run_server-IsValid events events-IsAllowed server-IsValid (omega arith) (omega arith)
