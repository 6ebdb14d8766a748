-- ===== src/Example/Transfer.antt =====
-- The two commands of server/server_example.c that transfer a file: that they end, and what they print.
use rmt_library.Common.{
  ℕ, ◌+◌, ◌<◌, ◌≡◌, ◌^◌, refl, ap, true, false, Option, none, some, List, [], ◌∷◌, length, arith,
  inr, All,
}
use rmt_library.Types.{RequestType, import, export, TransferStatus, TransferResult, is_running}
use rmt_library.Config.{codes}
use rmt_library.DevInfo.Status.{Good}
use rmt_library.DataInfo.{Outcome, fault, finished}
use rmt_library.FileTransfer.{State}
use rmt_library.FileTransfer.Start.{send_file-Begins, recv_file-Begins}
use rmt_library.FileTransfer.Single.{waiting}
use rmt_library.FileTransfer.Size.{size, send_file-size, recv_file-size}
use rmt_library.Server.{Server, Surroundings}
use rmt_library.Server.Turn.{IsValid}
use rmt_library.Server.Api.{IsUp, send_up, receive_up}
use rmt_library.Example.{
  Said, sent_said, received_said, agent_id, file_content, printed_file, or_fault, ◌>>=◌,
  wait_result, server_cmd_send_file, server_cmd_recv_file,
}
use rmt_library.Example.Wait.{Ended, IsFair, all_devices, some_late, wait_result_ends}

-- the server behind the begin of a transfer with one device
abbrev begun : Server → State → Server
begun s f = record s { files = f }

begun-IsValid :
    (type : RequestType) (seq now : ℕ) (s : Server) (f : State)
    → IsValid s
    → Good f.registry
    → f.transfer ≡ waiting type seq now agent_id
    → IsValid (begun s f)
begun-IsValid type seq now s f v g e = record {
  files = record {
    registry = g;
    phase = inr (ap (λ t. t.status) e, (agent_id ∷ [], ap (λ t. t.id_list) e, rw e refl));
  };
  transport = v.transport;
}

-- the loop of the client behind such a begin
begun-Ended :
    (type : RequestType) (seq now : ℕ) (envs : List Surroundings) {s : Server} {f : State}
    → All (IsFair type seq now agent_id) envs
    → IsValid s
    → IsUp s
    → Good f.registry
    → size f ≡ size s.files
    → size s.files + all_devices envs < 2 ^ 32
    → f.transfer ≡ waiting type seq now agent_id
    → some_late now envs ≡ true
    → Ended (wait_result agent_id envs none (begun s f))
begun-Ended type seq now envs {s} {f} fair v up g n few e late =
    wait_result_ends type seq now agent_id envs none fair (begun-IsValid type seq now s f v g e)
      up.fits (omega (arith, n, few)) e late
      (inr (record {
        transport = up.transport;
        there = up.there;
        running = up.running;
        fits = up.fits;
      }))

-- If the time of the transfer is out in one of the turns that the thread makes, each reply to the transfer comes
-- from the device, DDS makes each entity for which there is memory, and the devices with all
-- announcements are fewer than 2^32, then the command "sendfile" on a valid server that is up
-- and idle ends, whatever else comes in: it prints one status that is not "running", with a result,
-- and leaves a valid server.
pub server_cmd_send_file_ends :
    (seq now : ℕ) (envs : List Surroundings) {s : Server}
    → All (IsFair import seq now agent_id) envs
    → IsValid s
    → IsUp s
    → s.files.transfer.status ≡ 0
    → size s.files + all_devices envs < 2 ^ 32
    → some_late now envs ≡ true
    → (status : TransferStatus) × (r : TransferResult) × (s' : Server) × (server_cmd_send_file seq
          now envs s
        ≡ finished (sent_said status r.result ∷ [], s'))
      × (is_running status ≡ false)
      × IsValid s'
unfolding server_cmd_send_file
server_cmd_send_file_ends seq now envs {s} fair v up idle few late =
    let (reg, e, g, all) =
      send_file-Begins seq now (length file_content) (agent_id ∷ []) (codes "custom_callback")
        (codes "myfile.txt") file_content s.files v.files.registry idle (omega arith)
        (omega arith) in
    let n =
      send_file-size seq now (agent_id ∷ []) (codes "custom_callback") (codes "myfile.txt")
        file_content (length file_content) s.files e in
    let sent =
      send_up seq now (agent_id ∷ []) (codes "custom_callback") (codes "myfile.txt") file_content
        (length file_content) up e in
    let (status, r, s', ran, done, v') =
      begun-Ended import seq now envs fair v up g n few refl late in
    (status, r, s', rw (sent, ran) refl, done, v')

or_fault_then {ℓ κ} :
    {A : Type ℓ} {B : Type κ} (o : Option A) (f : A → Outcome B)
    → (or_fault o >>= f) ≡ elim o [ none ↦ fault | some a ↦ f a ]
or_fault_then none f = refl
or_fault_then (some a) f = refl

-- what "recvfile" prints behind its loop: a file without a zero byte is read behind its end
abbrev pub received : TransferStatus → TransferResult → Server → Outcome (List Said × Server)
received status r s = elim (printed_file r.file) [
  | none ↦ fault
  | some text ↦ finished (received_said status r.result text ∷ [], s)
]

-- The command "recvfile" ends under the same conditions, with the status and the result that it has got: it prints
-- them, unless there is a file that has no zero byte.
pub server_cmd_recv_file_ends :
    (seq now : ℕ) (envs : List Surroundings) {s : Server}
    → All (IsFair export seq now agent_id) envs
    → IsValid s
    → IsUp s
    → s.files.transfer.status ≡ 0
    → size s.files + all_devices envs < 2 ^ 32
    → some_late now envs ≡ true
    → (status : TransferStatus) × (r : TransferResult) × (s' : Server) × (server_cmd_recv_file seq
          now envs s
        ≡ received status r s')
      × (is_running status ≡ false)
      × IsValid s'
unfolding server_cmd_recv_file
server_cmd_recv_file_ends seq now envs {s} fair v up idle few late =
    let (reg, e, g, all) =
      recv_file-Begins seq now agent_id (codes "custom_callback") (codes "myfile.txt") s.files
        v.files.registry idle (omega arith) in
    let n =
      recv_file-size seq now agent_id (codes "custom_callback") (codes "myfile.txt") s.files e in
    let asked = receive_up seq now agent_id (codes "custom_callback") (codes "myfile.txt") up e in
    let (status, r, s', ran, done, v') =
      begun-Ended export seq now envs fair v up g n few refl late in
    (status, r, s', rw (asked, ran) (or_fault_then (printed_file r.file) _), done, v')
