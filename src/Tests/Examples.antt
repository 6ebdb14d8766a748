-- ===== src/Tests/Examples.antt =====
-- Runs of the example client: against an agent with its ID, against two other agents, and on a stopped server.
use rmt_library.Common.{
  ◌<◌, ◌^◌, length, ◌≡◌, refl, false, some, List, [], ◌∷◌, Bytes, pos, arith, All, inl, inr,
}
use rmt_library.Types.{
  Request, Reply, import, export, TransferStatus, TransferResult, status_done, is_running,
}
use rmt_library.Config.{codes}
use rmt_library.Transport.{made}
use rmt_library.DevInfo.{Registry}
use rmt_library.DevInfo.Status.{Good}
use rmt_library.DevInfo.Lookup.{lookup}
use rmt_library.DataInfo.{finished, fault}
use rmt_library.FileTransfer.{is_mine}
use rmt_library.FileTransfer.Marks.{last_from}
use rmt_library.FileTransfer.Complete.{taken_in}
use rmt_library.Agent.Queue.{init}
use rmt_library.Agent.Queue.Fifo.{init-Holds}
use rmt_library.Agent.Files.{FileFunc, find_callback}
use rmt_library.Server.{Server, Surroundings}
use rmt_library.Server.Api.{IsUp}
use rmt_library.Server.Turn.{IsValid}
use rmt_library.Session.{Member, exchange, sent_by}
use rmt_library.Session.Exchange.{Became, sent_by_lem}
use rmt_library.Session.Files.{Job, CanImport, import_exchange, reply_of}
use rmt_library.Session.Fetch.{Source, CanExport, fetch_exchange, fetch_reply}
use rmt_library.Example.{sent_said, file_content, server_cmd_send_file, server_cmd_recv_file}
use rmt_library.Example.Transfer.{server_cmd_send_file_ends}
use rmt_library.Example.Delivered.{
  names-IsNamed, sent_request, export_request, sendfile_prints, recvfile_prints,
}
use rmt_library.Tests.Agents.{exporter, setup, callback}
use rmt_library.Tests.Servers.{server, env}
use rmt_library.Tests.Registry.{node}
use rmt_library.Tests.Transfers.{idle}
use rmt_library.Tests.Transports.{good}
use rmt_library.Tests.Sessions.{taken_reply}

-- a server that knows the agent with the client's ID
abbrev known : Registry
known = record { dev_head = node 6166 90 ∷ []; dev_num = 1 }

known-Good : Good known
known-Good = record { valid = record { distinct = (tt, tt); counted = refl }; fits = omega arith }

abbrev home : Server
home = record server { files = record idle { registry = known } }

home-IsUp : IsUp home
home-IsUp = record { transport = made good; there = refl; running = refl; fits = omega arith }

home-IsValid : IsValid home
home-IsValid = record {
  files = record { registry = known-Good; phase = inl refl };
  transport = inr (made good, refl, refl);
}

-- no reply comes, and the time runs out in the second turn
abbrev silence : List Surroundings
silence = record env { now = 12 } ∷ (record env { now = 90 } ∷ [])

server_cmd_send_file_ends_example :
    (status : TransferStatus) × (r : TransferResult) × (s' : Server) × (server_cmd_send_file 42 10
        silence home
      ≡ finished (sent_said status r.result ∷ [], s'))
    × (is_running status ≡ false)
    × IsValid s'
server_cmd_send_file_ends_example =
    server_cmd_send_file_ends 42 10 silence ((refl, tt), ((refl, tt), tt)) home-IsValid home-IsUp
      refl (omega arith) refl

-- the agent's import function keeps the file, and returns 3
abbrev custom : FileFunc Bytes
custom = record callback { callbackname = codes "custom_callback" }

abbrev job : Job Bytes
job = record {
  member = record {
    setup = record setup { my_id = 6166; file_funcs = custom ∷ [] };
    state = record { queue = init; world = b'v' ∷ [] };
  };
  entry = custom;
  func = λ name content len w. (pos 3, content);
  world = b'v' ∷ [];
}

job-CanImport : CanImport (codes "custom_callback") (codes "myfile.txt") file_content job
unfolding find_callback
job-CanImport = record {
  idle = init-Holds;
  found = refl;
  saved = refl;
  called = refl;
  int = omega arith;
}

abbrev job_reply : Reply
job_reply = reply_of (codes "custom_callback") (codes "myfile.txt") file_content 42 (job ∷ []) job

-- a quiet turn that takes one reply
abbrev turn_with : Reply → Surroundings
turn_with m = record env {
  auto_detect_interface = false;
  feed = (taken_reply m ∷ []) ∷ [];
  reply_timeout = 60;
  now = 12;
}

job_arrives :
    All
      (λ m.
        last_from m.device_id
          (taken_in import 42 10 (6166 ∷ []) ((taken_reply job_reply ∷ []) ∷ []))
        ≡ some m)
      (sent_by (sent_request 42) (job.member ∷ []))
unfolding is_mine
job_arrives =
    let (after, e, b) =
      import_exchange (codes "custom_callback") (codes "myfile.txt") file_content 42 (job ∷ [])
        names-IsNamed (job-CanImport, tt) in
    rw (sent_by_lem (sent_request 42) (job.member ∷ []) e) (refl, tt)

sendfile_prints_example :
    (s' : Server) × (sent : List Reply) × (after : List (Member Bytes)) × (server_cmd_send_file 42
        10
        (turn_with job_reply ∷ [])
        home
      ≡ finished (sent_said status_done (pos 3) ∷ [], s'))
    × (exchange (sent_request 42) (job.member ∷ []) ≡ some (sent, after))
    × Became (job.member.setup ∷ []) (file_content ∷ []) after
unfolding lookup is_mine
sendfile_prints_example =
    sendfile_prints 42 10 (turn_with job_reply) job home home-IsUp known-Good refl job-CanImport
      (node 6166 90, refl) (record { none_new = refl; still = refl; in_time = omega arith })
      job_arrives refl

-- the file that the agent has is its world, with a zero byte in it
abbrev giver : Bytes → Source Bytes
giver content = record {
  member = record {
    setup = record setup {
      my_id = 6166;
      file_funcs = record exporter { callbackname = codes "custom_callback" } ∷ [];
    };
    state = record { queue = init; world = content };
  };
  entry = record exporter { callbackname = codes "custom_callback" };
  path = b'/' ∷ [];
  func = λ name content len w. (pos 4, w);
  content = content;
}

giver-CanExport :
    (content : Bytes)
    → length content < 2 ^ 31
    → CanExport (codes "custom_callback") (codes "myfile.txt") (giver content)
unfolding find_callback
giver-CanExport content few = record {
  idle = init-Holds;
  found = refl;
  at = refl;
  fits = omega arith;
  there = refl;
  called = refl;
  small = few;
  int = omega arith;
}

abbrev given : Bytes → Reply
given content = fetch_reply (codes "custom_callback") (codes "myfile.txt") 42 (giver content)

abbrev asked_of : Bytes → Request
asked_of content = export_request 42 10 (turn_with (given content)) (giver content)

given_arrives :
    (content : Bytes)
    → length content < 2 ^ 31
    → All
        (λ m.
          last_from m.device_id
            (taken_in export 42 10 (6166 ∷ []) ((taken_reply (given content) ∷ []) ∷ []))
          ≡ some m)
        (sent_by (asked_of content) ((giver content).member ∷ []))
unfolding is_mine
given_arrives content few =
    let (after, e, b) =
      fetch_exchange (codes "custom_callback") (codes "myfile.txt") 42 (giver content) names-IsNamed
        (giver-CanExport content few) in
    rw (sent_by_lem (asked_of content) ((giver content).member ∷ []) e) (refl, tt)

-- a file without a zero byte
recvfile_prints_example :
    (s' : Server) × (sent : List Reply) × (after : List (Member Bytes)) × (server_cmd_recv_file 42
        10
        (turn_with (given (8 ∷ [])) ∷ [])
        home
      ≡ fault)
    × (exchange (asked_of (8 ∷ [])) ((giver (8 ∷ [])).member ∷ []) ≡ some (sent, after))
    × Became ((giver (8 ∷ [])).member.setup ∷ []) ((8 ∷ []) ∷ []) after
unfolding lookup is_mine
recvfile_prints_example =
    recvfile_prints 42 10 (turn_with (given (8 ∷ []))) (giver (8 ∷ [])) home home-IsUp known-Good
      refl (giver-CanExport (8 ∷ []) (omega arith)) (node 6166 90, refl)
      (record { none_new = refl; still = refl; in_time = omega arith }) refl
      (given_arrives (8 ∷ []) (omega arith)) refl
