-- ===== src/FileTransfer/Start.antt =====
-- How a file transfer of server/datainfo_server.c begins.
use mathlib.Core.Option
use mathlib.Core.List.{append_assoc}
use rmt_library.Common.{
  ◌≤◌, ℕ, ◌+◌, ◌<◌, ◌%◌, ◌^◌, ◌≡◌, ◌≢◌, refl, Bool, true, false, if◌then◌else◌, ◌==◌, Option, none,
  some, List, [], ◌∷◌, ◌++◌, Bytes, length, length-append, take, arith, ℤ, pos, minus_one, ltb,
}
use rmt_library.Types.{
  Request, import, export, status_running, empty_result, TransferStatus, TransferResult,
}
use rmt_library.DevInfo.{Registry, Node}
use rmt_library.DevInfo.Lookup.{lookup}
use rmt_library.DevInfo.Loops.{put_status}
use rmt_library.DevInfo.Status.{Good, set_status-Marked}
use rmt_library.DataInfo.{strcat}
use rmt_library.FileTransfer.{
  State, started, mark_running, file_message, launch, send_file, recv_file,
}

-- whether an ID is listed
abbrev pub member : ℕ → List ℕ → Bool
member j [] = false
member j (id ∷ ids) = if id == j then true else member j ids

-- the devices of a list are marked as running with the empty result, and no other entry changes
abbrev pub AllRunning : List ℕ → Registry → Registry → Type 0
AllRunning ids r r' =
    (j : ℕ)
    → lookup j r' ≡ (
        if member j ids
        then Option.map (put_status status_running empty_result) (lookup j r)
        else lookup j r)

put_twice :
    (status : TransferStatus) (result : TransferResult) (o : Option Node)
    → Option.map (put_status status result) (Option.map (put_status status result) o)
      ≡ Option.map (put_status status result) o
put_twice status result none = refl
put_twice status result (some n) = refl

pub mark_running-AllRunning :
    (ids : List ℕ) {r : Registry}
    → Good r
    → (r' : Registry) × (mark_running ids r ≡ some r') × Good r' × AllRunning ids r r'
unfolding mark_running
mark_running-AllRunning [] {r} g = (r, refl, g, λ j. refl)
mark_running-AllRunning (id ∷ ids) {r} g =
    let (r₁, e₁, m₁) = set_status-Marked id status_running empty_result g in
    let (r₂, e₂, g₂, all) = mark_running-AllRunning ids m₁.good in
    (
      r₂,
      rw (e₁, mark_running) e₂,
      g₂,
      λ j. ground (arith, all j, m₁.entry j, put_twice status_running empty_result (lookup j r)),
    )

-- The message of a transfer fits its buffer exactly if the two names and the semicolon are below 1024.
pub file_message_lem :
    (callback filename : Bytes)
    → file_message callback filename ≡ (
        if ltb (length callback + 1 + length filename) 1024
        then some (callback ++ (b';' ∷ filename))
        else none)
unfolding file_message strcat
file_message_lem callback filename =
    ground (arith, length-append callback (b';' ∷ []), append_assoc callback (b';' ∷ []) filename)

-- While a transfer is not idle, neither function sends a request or changes anything: both return -1.
pub busy_refused :
    (seq now id file_len : ℕ) (ids : List ℕ) (callback filename file : Bytes) (s : State)
    → s.transfer.status ≢ 0
    → (send_file seq now ids callback filename file file_len s ≡ some (minus_one, none, s))
      × (recv_file seq now id callback filename s ≡ some (minus_one, none, s))
unfolding send_file recv_file
busy_refused seq now id file_len ids callback filename file s h = (ground arith, ground arith)

launch_lem :
    (seq now : ℕ) (req : Request) (s : State)
    → Good s.registry
    → (r : Registry) × (launch seq now req s
        ≡ some (
          pos 0,
          some req,
          record { registry = r; transfer = started req.type seq now req.id_list },
        ))
      × Good r
      × AllRunning req.id_list s.registry r
unfolding launch
launch_lem seq now req s g =
    let (r, e, g', all) = mark_running-AllRunning req.id_list g in (r, rw e refl, g', all)

-- the request of each function
abbrev pub send_request : ℕ → List ℕ → Bytes → Bytes → Bytes → ℕ → Request
send_request seq ids callback filename file file_len = record {
  id_list = ids;
  type = import;
  random_seq = seq;
  msg = callback ++ (b';' ∷ filename);
  binary = take (file_len % 2 ^ 32) file;
}

abbrev pub recv_request : ℕ → ℕ → Bytes → Bytes → Request
recv_request seq id callback filename = record {
  id_list = id ∷ [];
  type = export;
  random_seq = seq;
  msg = callback ++ (b';' ∷ filename);
  binary = [];
}

-- what a transfer that begins leaves: the request is out, the transfer waits for one reply from each
-- device with none received, and exactly the listed devices are marked as running
abbrev pub Begins : ℕ → Request → State → Option (ℤ × Option Request × State) → Type 0
Begins now req s answer =
    (r : Registry) × (answer
      ≡ some (
        pos 0,
        some req,
        record { registry = r; transfer = started req.type req.random_seq now req.id_list },
      ))
    × Good r
    × AllRunning req.id_list s.registry r

-- An idle server with a valid registry of fewer than 2^32 devices and names that fit begins a
-- transfer to the devices of a list, if the file has as many bytes as its length modulo 2^32 says: the request goes
-- out with so many bytes, every listed device is marked as running, no other entry changes, and one reply is awaited
-- from each device.
pub send_file-Begins :
    (seq now file_len : ℕ) (ids : List ℕ) (callback filename file : Bytes) (s : State)
    → Good s.registry
    → s.transfer.status ≡ 0
    → length callback + 1 + length filename < 1024
    → file_len % 2 ^ 32 ≤ length file
    → Begins now
        (send_request seq ids callback filename file file_len)
        s
        (send_file seq now ids callback filename file file_len s)
unfolding send_file
send_file-Begins seq now file_len ids callback filename file s g idle fits there =
    let (r, e, g', all) =
      launch_lem seq now (send_request seq ids callback filename file file_len) s g in
    (r, ground (arith, file_message_lem callback filename, e, there), g', all)

-- The same for a file that is fetched from one device.
pub recv_file-Begins :
    (seq now id : ℕ) (callback filename : Bytes) (s : State)
    → Good s.registry
    → s.transfer.status ≡ 0
    → length callback + 1 + length filename < 1024
    → Begins now
        (recv_request seq id callback filename)
        s
        (recv_file seq now id callback filename s)
unfolding recv_file
recv_file-Begins seq now id callback filename s g idle fits =
    let (r, e, g', all) = launch_lem seq now (recv_request seq id callback filename) s g in
    (r, ground (arith, file_message_lem callback filename, e), g', all)
