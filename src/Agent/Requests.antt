-- ===== src/Agent/Requests.antt =====
-- `recv_request`, `datainfo_agent_send_data` and `datainfo_agent_update` of agent/datainfo_agent.c.
pub mod Echo
pub mod Update
use mathlib.Core.Option
use rmt_library.Common.{
  take, length, ◌%◌, ◌^◌, ℕ, Bool, true, false, Option, none, some, List, [], ◌∷◌, Bytes,
}
use rmt_library.Types.{Request, Reply, RequestType, get, set, set_same_value, import, export}
use rmt_library.Transport.{Taken, data_req, try_recv}
use rmt_library.Agent.Queue.{Queue, queue_size, enqueue, put, send_data}
use rmt_library.Agent.Info.{DataFunc, get_reply, set_reply, found_idx, pick_list}
use rmt_library.Agent.Files.{FileFunc, Disk, import_reply, export_reply}

-- what an agent is set up with: its ID, its disk and its two maps
pub record Setup (W : Type 0) : Type 0 where
  pub my_id : ℕ
  pub disk : Disk W
  pub data_funcs : List (DataFunc W)
  pub file_funcs : List (FileFunc W)

-- the queue of replies, and the world that the callbacks act on
pub record State (W : Type 0) : Type 0 where
  pub queue : Queue
  pub world : W

-- the bytes that a sequence holds whose buffer may be null: its `_length` is a `uint32_t`
abbrev pub bytes : Option Bytes → Bytes
bytes none = []
bytes (some b) = take (length b % 2 ^ 32) b

module _ {W : Type 0} where
  -- the message and the binary part that answer a request for which the agent is at an index
  unfoldable pub handle : Setup W → Request → ℕ → W → Option (Bytes × Bytes × W)
  handle a req idx w = elim req.type [
    | get ↦ Option.map (λ r. (r.0, [], r.1)) (get_reply a.data_funcs req.msg w)
    | set ↦ (elim (pick_list idx req.msg) [
      | none ↦ none
      | some t ↦ Option.map (λ r. (r.0, [], r.1)) (set_reply a.data_funcs t.0 t.1 w)
    ])
    | set_same_value ↦ Option.map (λ r. (r.0, [], r.1)) (set_reply a.data_funcs req.msg none w)
    | import ↦
        Option.map (λ r. (r.0, [], r.1)) (import_reply a.disk a.file_funcs req.msg req.binary w)
    | export ↦ Option.map (λ r. (r.0, bytes r.1, r.2)) (export_reply a.disk a.file_funcs req.msg w)
  ]

  -- the slot that a branch fills in
  abbrev pub reply_to : Setup W → Request → Bytes → Bytes → Reply
  reply_to a req msg binary = record {
    device_id = a.my_id;
    type = req.type;
    random_seq = req.random_seq;
    msg = msg;
    binary = binary;
  }

  -- `recv_request`. A full queue gives index -1, and the branch then writes in front of the array.
  pub recv_request : Setup W → Request → State W → Option (State W)
  recv_request a req s = elim (found_idx a.my_id req.id_list) [
    | none ↦ some s
    | some idx ↦ (elim (enqueue s.queue) [
      | none ↦ none
      | some (i, q) ↦ (elim (handle a req idx s.world) [
        | none ↦ none
        | some (msg, binary, w) ↦ some (record {
          queue = record q { slots = put i (some (reply_to a req msg binary)) q.slots };
          world = w;
        })
      ])
    ])
  ]

  -- `datainfo_agent_update`: the requests that the reader holds, and then all replies. At most fifteen are
  -- queued, so sixteen rounds of the loop are enough.
  pub update : Setup W → List (Taken Request) → State W → Option (List Reply × State W)
  update a takes s = elim (try_recv data_req (λ req handle. recv_request a req) takes s) [
    | none ↦ none
    | some (code, s', rest) ↦
        let out = send_data queue_size s'.queue in some (out.0, record s' { queue = out.1 })
  ]
