-- ===== src/DataInfo/Replies.antt =====
-- Which replies one receive of server/datainfo_server.c takes in.
use rmt_library.Common.{
  ℕ, ◌+◌, ◌≤◌, ◌≡◌, if◌then◌else◌, leb, none, some, List, [], ◌∷◌, ◌++◌, arith, length,
  length-append, drop,
}
use mathlib.Core.List.{append-nil, append_assoc}
use rmt_library.Types.{Entry, Request, Reply}
use rmt_library.Transport.{Taken, try_recv_instance}
use rmt_library.Transport.Receive.{samples, stopped, stop_code, deliver, try_recv_instance_lem}
use rmt_library.DataInfo.{answers, entry, recv_reply}

-- the entries for the answers to a request among some samples
abbrev pub entries : Request → List (Taken Reply) → List Entry
entries req [] = []
entries req (t ∷ takes) =
    if answers req t.sample then entry t.sample ∷ entries req takes else entries req takes

-- A run of samples is taken in exactly if the answers among them fit the buffer: then each of them is
-- appended, in order, and else a write leaves the buffer.
pub deliver-recv_reply :
    (req : Request) (size : ℕ) (takes : List (Taken Reply)) (replys : List Entry)
    → length replys ≤ size
    → deliver (λ t. recv_reply req size t.sample) takes replys ≡ (
        if leb (length replys + length (entries req takes)) size
        then some (replys ++ entries req takes)
        else none)
unfolding recv_reply
deliver-recv_reply req size [] replys h = ground (arith, append-nil replys)
deliver-recv_reply req size (t ∷ takes) replys h =
    let grown = replys ++ entry t.sample ∷ [] in
    ground (
      arith,
      deliver-recv_reply req size takes replys h,
      deliver-recv_reply req size takes grown,
      length-append replys (entry t.sample ∷ []),
      append_assoc replys (entry t.sample ∷ []) (entries req takes),
    )

-- One receive of `dds_transport_try_recv_instance` with `recv_reply`.
pub receive_lem :
    (req : Request) (size : ℕ) (takes : List (Taken Reply)) (replys : List Entry)
    → length replys ≤ size
    → try_recv_instance (recv_reply req size) takes replys ≡ (
        if leb (length replys + length (entries req (samples takes))) size
        then some (
          stop_code (stopped takes),
          replys ++ entries req (samples takes),
          drop 1 (stopped takes),
        )
        else none)
receive_lem req size takes replys h = ground (
  arith,
  try_recv_instance_lem (recv_reply req size) takes replys,
  deliver-recv_reply req size (samples takes) replys h,
)
