-- ===== src/DataInfo.antt =====
-- server/datainfo_server.c: requests that collect one reply from each device. (The file transfers of the
-- same file are in FileTransfer.) A reply buffer is the list of the entries written, so `replys.num` is its
-- length; a write behind the buffer's end is a fault. `malloc` succeeds, and the fields of an
-- entry behind `value_list` are not modelled.
pub mod Replies
pub mod Wait
pub mod Message
pub mod Calls
use mathlib.Core.Option
use rmt_library.Common.{
  ℕ, suc, ◌+◌, ◌-◌, ◌*◌, ◌^◌, Bool, true, false, ◌&&◌, if◌then◌else◌, ◌==◌, ltb, Option, none, some,
  List, [], ◌∷◌, ◌++◌, Bytes, length, take, map,
}
use rmt_library.Types.{
  DataInfo, Entry, config_key_str_len, RequestType, get, set, set_same_value, type_eq, Request,
  Reply,
}
use rmt_library.Transport.{Taken, try_recv_instance}

-- the entry that `recv_reply` writes: `strncpy` writes `CONFIG_KEY_STR_LEN` bytes of the array, with zeros behind a
-- shorter text; of a longer one no terminator is among them, and the last byte is never set
abbrev pub entry : Reply → Entry
entry msg = record {
  device_id = msg.device_id;
  value_list = if ltb (length msg.msg) config_key_str_len then some msg.msg else none;
}

-- "this reply is for me"
unfoldable pub answers : Request → Reply → Bool
answers req msg = type_eq msg.type req.type && (msg.random_seq == req.random_seq)

-- `recv_reply` on a buffer of `size` entries
unfoldable pub recv_reply : Request → ℕ → Reply → List Entry → Option (List Entry)
recv_reply req size msg replys =
    if answers req msg
    then if ltb (length replys) size then some (replys ++ entry msg ∷ []) else none
    else some replys

-- What a wait comes to: a fault, the end of the rounds that are given, or a result.
pub data Outcome {ℓ} (A : Type ℓ) : Type ℓ where
  fault pending : Outcome A
  finished : A → Outcome A

-- one round of a wait: what the reader answers, and the time behind the sleep
pub record Round : Type 0 where
  pub takes : List (Taken Reply)
  pub now : ℕ

-- the surroundings of a request: `rand()`, the time, `g_rmt_cfg.reply_timeout`, and the rounds
pub record Env : Type 0 where
  pub seq : ℕ
  pub start_time : ℕ
  pub reply_timeout : ℕ
  pub rounds : List Round

-- the wait for the replies, `while (replys.num != id_num)`, at time `now`
unfoldable pub collect : Request → ℕ → ℕ → ℕ → ℕ → List Round → List Entry → Outcome (List Entry)
collect req id_num start timeout now [] replys =
    if length replys == id_num
    then finished replys
    else if ltb timeout (now - start)
    then finished replys
    else pending
collect req id_num start timeout now (r ∷ rounds) replys =
    let received = try_recv_instance (recv_reply req id_num) r.takes replys in
    if length replys == id_num
    then finished replys
    else if ltb timeout (now - start)
    then finished replys
    else (elim received [
      | none ↦ fault
      | some got ↦ collect req id_num start timeout r.now rounds got.1
    ])

-- the request of each function, with no binary part
abbrev pub request : RequestType → ℕ → List ℕ → Bytes → Request
request type seq id_list msg = record {
  id_list = id_list;
  type = type;
  random_seq = seq;
  msg = msg;
  binary = [];
}

-- the request that is sent, and the wait for its replies
abbrev pub ask : Env → Request → Request × Outcome (List Entry)
ask env req = (
  req,
  collect req (length req.id_list) env.start_time env.reply_timeout env.start_time env.rounds [],
)

-- `datainfo_server_get_info`; the caller's `id_num` is the length of the list.
unfoldable pub get_info : Env → List ℕ → Bytes → Request × Outcome (List Entry)
get_info env id_list key_list = ask env (request get env.seq id_list key_list)

-- `datainfo_server_set_info_with_same_value`
unfoldable pub set_info_with_same_value : Env → List ℕ → Bytes → Request × Outcome (List Entry)
set_info_with_same_value env id_list value_list =
    ask env (request set_same_value env.seq id_list value_list)

-- `strcat` to a text in a buffer of `size` bytes, which also holds the terminator
unfoldable pub strcat : ℕ → Bytes → Bytes → Option Bytes
strcat size buffer src =
    if ltb (length buffer + length src) size then some (buffer ++ src) else none

-- the loop of `datainfo_server_set_info`: each value list, and a bar
pub join_values : ℕ → List DataInfo → Bytes → Option Bytes
join_values size [] buffer = some buffer
join_values size (dev ∷ devs) buffer = elim (strcat size buffer dev.value_list) [
  | none ↦ none
  | some buffer' ↦ (elim (strcat size buffer' (b'|' ∷ [])) [
    | none ↦ none
    | some buffer'' ↦ join_values size devs buffer''
  ])
]

-- the message of `datainfo_server_set_info`, in 1024 bytes for each device; the terminator that
-- `buffer[0] = 0` writes needs a first byte. The size is a product of two `int`s; an overflow is a fault.
pub set_message : List DataInfo → Option Bytes
unfolding join_values strcat
set_message devs =
    let size = 1024 * length devs in
    if ltb 0 size && ltb size (2 ^ 31) then join_values size devs [] else none

-- `datainfo_server_set_info`; `none` is a write behind the message's buffer.
pub set_info : Env → List DataInfo → Option (Request × Outcome (List Entry))
set_info env devs =
    Option.map (λ msg. ask env (request set env.seq (map (λ dev. dev.device_id) devs) msg))
      (set_message devs)
