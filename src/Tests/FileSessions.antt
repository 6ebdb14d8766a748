-- ===== src/Tests/FileSessions.antt =====
-- Runs of the whole program with a file: two agents that import it, and one that exports it.
use rmt_library.Common.{ℕ, ◌≡◌, refl, some, List, [], ◌∷◌, Bytes, pos, arith, map, All}
use rmt_library.Types.{Request, Reply, import, export, empty_result, status_done}
use rmt_library.Transport.{Taken}
use rmt_library.DevInfo.Lookup.{lookup}
use rmt_library.FileTransfer.{State, tick, is_mine}
use rmt_library.FileTransfer.Marks.{last_from}
use rmt_library.FileTransfer.Complete.{taken_in}
use rmt_library.Agent.Queue.{init}
use rmt_library.Agent.Queue.Fifo.{init-Holds}
use rmt_library.Agent.Files.{find_callback}
use rmt_library.Server.{send, receive, get_result}
use rmt_library.Session.{Member, exchange, sent_by}
use rmt_library.Session.Exchange.{Became, sent_by_lem}
use rmt_library.Session.Files.{
  Job, CanImport, IsNamed, HasResult, import_request, import_exchange, send_file_delivers, reply_of,
}
use rmt_library.Session.Fetch.{
  Source, CanExport, fetch_reply, fetch_request, fetch_exchange, recv_file_delivers,
}
use rmt_library.Tests.Agents.{exporter, setup, callback}
use rmt_library.Tests.Servers.{server, server-IsUp}
use rmt_library.Tests.Registry.{node}
use rmt_library.Tests.Transfers.{registry-Good, plenty}
use rmt_library.Tests.Sessions.{agent, taken_reply}

-- the file [1, 2, 3], of which two bytes are sent to the import function of both agents
abbrev job : ℕ → Job Bytes
job id = record {
  member = agent id (b'v' ∷ []);
  entry = callback;
  func = λ name content len w. (pos 3, content);
  world = b'v' ∷ [];
}

abbrev jobs : List (Job Bytes)
jobs = job 7 ∷ job 9 ∷ []

job-CanImport : (id : ℕ) → CanImport (b'c' ∷ []) (b'f' ∷ []) (1 ∷ (2 ∷ [])) (job id)
unfolding find_callback
job-CanImport id = record {
  idle = init-Holds;
  found = refl;
  saved = refl;
  called = refl;
  int = omega arith;
}

abbrev file_reply : ℕ → Reply
file_reply id = reply_of (b'c' ∷ []) (b'f' ∷ []) (1 ∷ (2 ∷ [])) 42 jobs (job id)

-- a reply in the first receive, and the other one in the second
abbrev file_feed : List (List (Taken Reply))
file_feed = (taken_reply (file_reply 9) ∷ []) ∷ ((taken_reply (file_reply 7) ∷ []) ∷ [])

names-IsNamed : IsNamed (b'c' ∷ []) (b'f' ∷ [])
names-IsNamed = record {
  callback_some = cc;
  callback_free = (refl, tt);
  filename_some = cc;
  filename_free = (refl, tt);
  fits = omega arith;
}

abbrev file_request : Request
file_request = import_request (b'c' ∷ []) (b'f' ∷ []) (1 ∷ (2 ∷ [])) 42 (7 ∷ 9 ∷ [])

files_arrive :
    All
      (λ m. last_from m.device_id (taken_in import 42 10 (7 ∷ 9 ∷ []) file_feed) ≡ some m)
      (sent_by file_request (map (λ j. j.member) jobs))
unfolding is_mine
files_arrive =
    let (after, e, b) =
      import_exchange (b'c' ∷ []) (b'f' ∷ []) (1 ∷ (2 ∷ [])) 42 jobs names-IsNamed
        (job-CanImport 7, (job-CanImport 9, tt)) in
    rw (sent_by_lem file_request (map (λ j. j.member) jobs) e) (refl, (refl, tt))

send_file_delivers_example :
    (f f' : State) × (sent : List Reply) × (after : List (Member Bytes)) × (send 42 10
        (7 ∷ 9 ∷ [])
        (b'c' ∷ [])
        (b'f' ∷ [])
        (1 ∷ (2 ∷ (3 ∷ [])))
        2
        server
      ≡ some ((pos 0, some file_request), record server { files = f }))
    × (exchange file_request (map (λ j. j.member) jobs) ≡ some (sent, after))
    × Became (map (λ j. j.member.setup) jobs) ((1 ∷ (2 ∷ [])) ∷ ((1 ∷ (2 ∷ [])) ∷ [])) after
    × (tick plenty empty_result file_feed 60 12 f ≡ some f')
    × (f'.transfer.status ≡ 0)
    × All
        (λ (j : Job Bytes). HasResult j.member.setup.my_id (pos 3) (record server { files = f' }))
        jobs
unfolding lookup is_mine
send_file_delivers_example =
    send_file_delivers plenty empty_result 42 10 2 60 12 (b'c' ∷ []) (b'f' ∷ [])
      (1 ∷ (2 ∷ (3 ∷ []))) jobs file_feed server server-IsUp registry-Good refl names-IsNamed
      (omega arith) (job-CanImport 7, (job-CanImport 9, tt))
      ((node 7 70, refl), ((node 9 90, refl), tt)) (omega arith) files_arrive refl

-- the file that the second agent has is its world
abbrev source : Source Bytes
source = record {
  member = record {
    setup = record setup { my_id = 9; file_funcs = exporter ∷ [] };
    state = record { queue = init; world = 8 ∷ [] };
  };
  entry = exporter;
  path = b'/' ∷ [];
  func = λ name content len w. (pos 4, w);
  content = 8 ∷ [];
}

source-CanExport : CanExport (b'c' ∷ []) (b'f' ∷ []) source
unfolding find_callback
source-CanExport = record {
  idle = init-Holds;
  found = refl;
  at = refl;
  fits = omega arith;
  there = refl;
  called = refl;
  small = omega arith;
  int = omega arith;
}

abbrev fetched : Reply
fetched = fetch_reply (b'c' ∷ []) (b'f' ∷ []) 42 source

abbrev fetch : Request
fetch = fetch_request (b'c' ∷ []) (b'f' ∷ []) 42 source

fetch_arrives :
    All
      (λ m.
        last_from m.device_id (taken_in export 42 10 (9 ∷ []) ((taken_reply fetched ∷ []) ∷ []))
        ≡ some m)
      (sent_by fetch (source.member ∷ []))
unfolding is_mine
fetch_arrives =
    let (after, e, b) =
      fetch_exchange (b'c' ∷ []) (b'f' ∷ []) 42 source names-IsNamed source-CanExport in
    rw (sent_by_lem fetch (source.member ∷ []) e) (refl, tt)

recv_file_delivers_example :
    (f f' : State) × (after : List (Member Bytes)) × (receive 42 10 9 (b'c' ∷ []) (b'f' ∷ []) server
      ≡ some ((pos 0, some fetch), record server { files = f }))
    × (exchange fetch (source.member ∷ []) ≡ some (fetched ∷ [], after))
    × Became (source.member.setup ∷ []) ((8 ∷ []) ∷ []) after
    × (tick plenty empty_result ((taken_reply fetched ∷ []) ∷ []) 60 12 f ≡ some f')
    × (f'.transfer.status ≡ 0)
    × (get_result 9 (record server { files = f' })
        ≡ some (
          (status_done, some (record { result = pos 4; file = some (8 ∷ []); file_len = 1 })),
          record server { files = f' },
        ))
unfolding lookup is_mine
recv_file_delivers_example =
    recv_file_delivers plenty empty_result 42 10 60 12 (b'c' ∷ []) (b'f' ∷ []) source
      ((taken_reply fetched ∷ []) ∷ []) server server-IsUp registry-Good refl names-IsNamed
      source-CanExport (node 9 90, refl) (omega arith) fetch_arrives refl
