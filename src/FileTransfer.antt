-- ===== src/FileTransfer.antt =====
-- server/datainfo_server.c: the one file transfer that may run at a time. Its state is beside the device
-- registry, whose status fields it writes. `none` is a fault: a null or freed pointer, or a write
-- behind a buffer.
pub mod Receipt
pub mod Marks
pub mod Size
pub mod Start
pub mod Expire
pub mod Tick
pub mod Single
pub mod Complete
pub mod Flow
pub mod Run
use mathlib.Core.Option
use rmt_library.Common.{
  ℕ, zero, suc, ◌+◌, ◌-◌, ◌%◌, ◌^◌, Bool, true, false, ◌&&◌, if◌then◌else◌, ◌==◌, ltb, Option, none,
  some, List, [], ◌∷◌, ◌++◌, Bytes, length, take, ℤ, pos, minus_one, atoi, signed32, low32, leb,
}
use rmt_library.Types.{
  RequestType, import, export, type_eq, Request, Reply, TransferStatus, status_done, status_running,
  status_server_error, status_agent_error, is_running, TransferResult, empty_result,
}
use rmt_library.Transport.{Taken, try_recv_instance}
use rmt_library.DevInfo.{Registry, set_status, get_status}
use rmt_library.DataInfo.{strcat}

-- `file_transfer_stat`; a null `id_list` is `none`.
pub record Transfer : Type 0 where
  pub status : ℕ
  pub start_time : ℕ
  pub type : RequestType
  pub random_seq : ℕ
  pub id_list : Option (List ℕ)
  pub id_num : ℕ
  pub recv_num : ℕ

-- `g_file_transfer_stat`, and the globals of server/devinfo_server.c
pub record State : Type 0 where
  pub registry : Registry
  pub transfer : Transfer

-- `datainfo_server_init`
unfoldable pub init : Transfer → Transfer
init t = record t { status = 0; start_time = 0; recv_num = 0; id_list = none; id_num = 0 }

-- "this reply is for me"
unfoldable pub is_mine : Transfer → Reply → Bool
is_mine t msg = type_eq msg.type t.type && (msg.random_seq == t.random_seq)

-- The status and the result that a reply gives. `malloc_ok n` is whether `malloc` finds `n` bytes, and
-- `junk` is what the local `file_result` holds before it is written.
pub outcome : (ℕ → Bool) → TransferResult → Reply → TransferStatus × TransferResult
outcome malloc_ok junk msg =
    let coded = record junk { result = signed32 (low32 (atoi msg.msg)) } in
    let content = msg.binary in
    elim msg.type [
      | import ↦ (status_done, record coded { file = none; file_len = 0 })
      | export ↦
          if malloc_ok (length content)
          then (status_done, record coded { file = some content; file_len = length content })
          else (status_server_error, record coded { file = none })
      | _ ↦ (status_done, coded)
    ]

-- `recv_file_transfer_reply`
pub recv_reply : (ℕ → Bool) → TransferResult → Reply → State → Option State
recv_reply malloc_ok junk msg s =
    if is_mine s.transfer msg
    then (let (status, result) = outcome malloc_ok junk msg in
        Option.map
          (λ r. record {
            registry = r.1;
            transfer = record s.transfer { recv_num = s.transfer.recv_num + 1 };
          })
          (set_status msg.device_id status result s.registry))
    else some s

-- the loop that marks the devices of a list as running
pub mark_running : List ℕ → Registry → Option Registry
mark_running [] r = some r
mark_running (id ∷ ids) r = elim (set_status id status_running empty_result r) [
  | none ↦ none
  | some (code, r') ↦ mark_running ids r'
]

-- `message[1024]`: the name of the callback, a semicolon and the name of the file
pub file_message : Bytes → Bytes → Option Bytes
file_message callback filename = elim (strcat 1024 [] callback) [
  | none ↦ none
  | some m ↦ (elim (strcat 1024 m (b';' ∷ [])) [ none ↦ none | some m' ↦ strcat 1024 m' filename ])
]

-- a transfer that has just begun
abbrev pub started : RequestType → ℕ → ℕ → List ℕ → Transfer
started type seq now ids = record {
  status = 1;
  start_time = now;
  type = type;
  random_seq = seq;
  id_list = some ids;
  id_num = length ids;
  recv_num = 0;
}

-- what `datainfo_server_send_file` and `datainfo_server_recv_file` do behind their guard: the request
-- goes out, the devices are marked, and the transfer begins
pub launch : ℕ → ℕ → Request → State → Option (ℤ × Option Request × State)
launch seq now req s =
    Option.map
      (λ r.
        (pos 0, some req, record { registry = r; transfer = started req.type seq now req.id_list }))
      (mark_running req.id_list s.registry)

-- `datainfo_server_send_file`, with `rand()` and the time; the length arrives in a `uint32_t`, and what is sent
-- is so many bytes behind `pFile`: a shorter file is read behind its end.
pub send_file :
    ℕ → ℕ → List ℕ → Bytes → Bytes → Bytes → ℕ → State → Option (ℤ × Option Request × State)
send_file seq now ids callback filename file file_len s =
    if s.transfer.status == 0
    then (elim (file_message callback filename) [
      | none ↦ none
      | some msg ↦
          let begun =
            launch seq now
              (record {
                id_list = ids;
                type = import;
                random_seq = seq;
                msg = msg;
                binary = take (file_len % 2 ^ 32) file;
              })
              s in
          if leb (file_len % 2 ^ 32) (length file) then begun else none
    ])
    else some (minus_one, none, s)

-- `datainfo_server_recv_file`
pub recv_file : ℕ → ℕ → ℕ → Bytes → Bytes → State → Option (ℤ × Option Request × State)
recv_file seq now id callback filename s =
    if s.transfer.status == 0
    then (elim (file_message callback filename) [
      | none ↦ none
      | some msg ↦
          launch seq now
            (record { id_list = id ∷ []; type = export; random_seq = seq; msg = msg; binary = [] })
            s
    ])
    else some (minus_one, none, s)

-- what the reader answers in the next round of the receive loop; nothing, where no more is given
abbrev pub head_takes : List (List (Taken Reply)) → List (Taken Reply)
head_takes [] = []
head_takes (takes ∷ _) = takes

abbrev pub tail_takes : List (List (Taken Reply)) → List (List (Taken Reply))
tail_takes [] = []
tail_takes (_ ∷ more) = more

-- the receive loop of `dataserver_info_file_transfer_thread`, over the rounds that are left
pub receive : (ℕ → Bool) → TransferResult → ℕ → List (List (Taken Reply)) → State → Option State
receive malloc_ok junk zero feed s = some s
receive malloc_ok junk (suc i) feed s =
    elim (try_recv_instance (recv_reply malloc_ok junk) (head_takes feed) s) [
      | none ↦ none
      | some (code, s', rest) ↦ receive malloc_ok junk i (tail_takes feed) s'
    ]

-- the timeout's loop over `i` entries of `id_list`: a device that is still running gets an agent error
pub expire : ℕ → List ℕ → Registry → Option Registry
expire zero ids r = some r
expire (suc i) [] r = none
expire (suc i) (id ∷ ids) r = elim (get_status id r) [
  | none ↦ none
  | some (status, result) ↦
      (elim (if is_running status
        then Option.map (λ a. a.1) (set_status id status_agent_error empty_result r)
        else some r) [ none ↦ none | some r' ↦ expire i ids r' ])
]

-- the same over `id_list` itself, which may be null
pub expire_all : ℕ → Option (List ℕ) → Registry → Option Registry
expire_all zero ids r = some r
expire_all (suc i) none r = none
expire_all (suc i) (some ids) r = expire (suc i) ids r

-- "If we receive all the data"
abbrev pub complete : State → State
complete s =
    if s.transfer.recv_num == s.transfer.id_num
    then record s { transfer = record s.transfer { status = 0 } }
    else s

-- "While receive timeout", at time `now`
pub check_timeout : ℕ → ℕ → State → Option State
check_timeout timeout now s =
    if ltb timeout (now - s.transfer.start_time)
    then Option.map (λ r. record { registry = r; transfer = record s.transfer { status = 0 } })
        (expire_all s.transfer.id_num s.transfer.id_list s.registry)
    else some s

-- "free the resource"
abbrev pub release : State → State
release s =
    if s.transfer.status == 0
    then record s { transfer = record s.transfer { id_list = none; id_num = 0 } }
    else s

-- `dataserver_info_file_transfer_thread`: one call, with what the reader answers, the memory, the
-- timeout of the configuration, and the time behind the loop
unfoldable pub tick :
    (ℕ → Bool) → TransferResult → List (List (Taken Reply)) → ℕ → ℕ → State → Option State
tick malloc_ok junk feed timeout now s =
    if s.transfer.status == 1
    then (elim (receive malloc_ok junk (s.transfer.id_num - s.transfer.recv_num) feed s) [
      | none ↦ none
      | some s' ↦ Option.map release (check_timeout timeout now (complete s'))
    ])
    else some s

-- `dataserver_is_file_transfering`
abbrev pub is_transferring : Transfer → Bool
is_transferring t = if t.status == 0 then false else true
