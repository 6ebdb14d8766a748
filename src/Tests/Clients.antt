-- ===== src/Tests/Clients.antt =====
-- More runs of the example client: the search with two agents, a stopped server, and the options.
use mathlib.Core.List.{Perm}
use mathlib.Core.List.Perm
use rmt_library.Strings.{tokens_from, cut}
use rmt_library.Common.{
  ℕ, ◌≡◌, ◌++◌, refl, none, some, List, [], ◌∷◌, Bytes, pos, arith, All, length, map,
}
use rmt_library.Types.{Entry, Reply}
use rmt_library.Config.{codes}
use rmt_library.Transport.{try_recv}
use rmt_library.DataInfo.{Env, finished, fault, answers}
use rmt_library.Agent.Queue.Fifo.{init-Holds}
use rmt_library.Agent.Info.{find_key, read_value}
use rmt_library.Agent.Requests.{reply_to}
use rmt_library.Server.{Server, stat_stop, update_devices}
use rmt_library.Session.{Member, exchange, sent_by, arrivals}
use rmt_library.Session.Exchange.{Became, sent_by_lem}
use rmt_library.Session.Get.{reading, read_entry, CanRead, get_request, get_exchange}
use rmt_library.Example.{
  Said, tried_said, note_said, Discovery, devices_said, entries_said, server_cmd_search_and_get,
  server_cmd_get_task, server_cmd_set_task, server_cmd_send_file, server_cmd_recv_file, select,
  cmd_set, cmd_search,
}
use rmt_library.Example.Search.{search_keys, search_prints}
use rmt_library.Example.Options.{select_lem}
use rmt_library.Example.Stopped.{stopped_commands}
use rmt_library.Tests.Registry.{both, fresh, robot}
use rmt_library.Tests.Transfers.{plenty, registry-Good}
use rmt_library.Tests.Servers.{server, server-IsUp, request_env}
use rmt_library.Tests.Agents.{setup, key_k}
use rmt_library.Tests.Sessions.{agent, env_of}

-- an agent that knows the first key
abbrev cpu_agent : ℕ → Bytes → Member Bytes
cpu_agent id w = record (agent id w) {
  setup = record setup { my_id = id; data_funcs = record key_k { key = codes "cpu" } ∷ [] };
}

abbrev members : List (Member Bytes)
members = cpu_agent 9 (b'u' ∷ []) ∷ (cpu_agent 7 (b'v' ∷ []) ∷ [])

abbrev reply : Member Bytes → Reply
reply m = reply_to m.setup (get_request 42 search_keys members) (reading search_keys m).0 []

-- the replies arrive in the other order
abbrev search_env : Env
search_env = env_of (reply (cpu_agent 7 (b'v' ∷ [])) ∷ reply (cpu_agent 9 (b'u' ∷ [])) ∷ [])

abbrev discovery : Discovery
discovery = record { malloc_ok = plenty; fresh = fresh; takes = [] }

members-CanRead : All (CanRead search_keys) members
unfolding find_key read_value tokens_from cut
members-CanRead = ((init-Holds, omega arith), ((init-Holds, omega arith), tt))

replies_arrive :
    Perm
      (arrivals (get_request 42 search_keys members) search_env.rounds)
      (sent_by (get_request 42 search_keys members) members)
unfolding answers
replies_arrive =
    let (after, e, b) = get_exchange 42 search_keys members members-CanRead in
    rw (sent_by_lem (get_request 42 search_keys members) members e)
      (Perm.swap (reply (cpu_agent 9 (b'u' ∷ []))) (reply (cpu_agent 7 (b'v' ∷ []))) [])

search_prints_example :
    (l : List Entry) × (said : List Said) × (s' : Server) × (sent : List Reply) × (after : List
      (Member Bytes))
    × (server_cmd_search_and_get discovery search_env server
        ≡ finished (devices_said 0 (robot 9 ∷ robot 7 ∷ []) ++ (tried_said (length l) ∷ said), s'))
    × (entries_said l ≡ some said)
    × (s' ≡ server)
    × Perm l (map (read_entry search_keys) members)
    × (exchange (get_request 42 search_keys members) members ≡ some (sent, after))
    × Became (map (λ m. m.setup) members) (map (λ m. (reading search_keys m).1) members) after
unfolding update_devices try_recv
search_prints_example =
    search_prints discovery search_env members server both (pos 0) server-IsUp registry-Good
      (omega arith) refl refl refl refl members-CanRead (omega arith, tt) replies_arrive

abbrev stopped : Server
stopped = record server { status = stat_stop }

stopped_commands_example :
    (server_cmd_search_and_get discovery request_env stopped
      ≡ finished (tried_said 0 ∷ [], stopped))
    × (server_cmd_get_task discovery request_env stopped ≡ finished (tried_said 0 ∷ [], stopped))
    × (server_cmd_set_task request_env stopped
        ≡ finished (note_said (codes "Try to set task to id 6166") ∷ [], stopped))
    × (server_cmd_send_file 42 10 [] stopped ≡ fault)
    × (server_cmd_recv_file 42 10 [] stopped ≡ fault)
stopped_commands_example = stopped_commands discovery request_env 42 10 [] {s = stopped} refl

select_lem_test :
    (select (some (codes "set")) ≡ cmd_set)
    × (select (some (codes "sets")) ≡ cmd_search)
    × (select none ≡ cmd_search)
select_lem_test =
    select_lem cmd_set (codes "sets") (refl, (refl, (refl, (refl, (refl, (refl, (refl, tt)))))))
