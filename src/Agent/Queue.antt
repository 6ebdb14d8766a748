-- ===== src/Agent/Queue.antt =====
-- The ring of reply slots in agent/datainfo_agent.c. An index of `-1` is `none`.
pub mod Fifo
use rmt_library.Common.{
  ℕ, zero, suc, ◌+◌, ◌%◌, Bool, true, false, if◌then◌else◌, ◌==◌, Option, none, some, List, [], ◌∷◌,
}
use rmt_library.Types.{Reply}

-- `QUEUE_SIZE`
abbrev pub queue_size : ℕ
queue_size = 16

-- `q_front` and `q_rear`, and `datainfo_replys`: the reply of each slot, or `none` where its message is
-- null.
pub record Queue : Type 0 where
  pub front : ℕ
  pub rear : ℕ
  pub slots : ℕ → Option Reply

-- the state after `datainfo_agent_init` at the start of the program
pub init : Queue
init = record { front = 0; rear = 0; slots = λ i. none }

-- `q_enqueue`
pub enqueue : Queue → Option (ℕ × Queue)
enqueue q =
    let next = (q.rear + 1) % queue_size in
    if next == q.front then none else some (next, record q { rear = next })

-- `q_dequeue`
pub dequeue : Queue → Option (ℕ × Queue)
dequeue q =
    let next = (q.front + 1) % queue_size in
    if q.front == q.rear then none else some (next, record q { front = next })

-- a write of a slot
pub put : ℕ → Option Reply → (ℕ → Option Reply) → ℕ → Option Reply
put i r slots j = if i == j then r else slots j

-- A reply that is queued: `none` is a write at index -1 of the array, in front of it.
pub push : Reply → Queue → Option Queue
unfolding enqueue put
push r q = elim (enqueue q) [
  | none ↦ none
  | some (i, q') ↦ some (record q' { slots = put i (some r) q'.slots })
]

-- The loop of `datainfo_agent_send_data` over at most so many rounds: what it sends, and the queue that
-- it leaves. A slot with a null message is passed over, and a slot that was sent gets one.
pub send_data : ℕ → Queue → List Reply × Queue
send_data zero q = ([], q)
send_data (suc n) q = elim (dequeue q) [
  | none ↦ ([], q)
  | some (i, q') ↦ (elim (q'.slots i) [
    | none ↦ send_data n q'
    | some r ↦
        let rest = send_data n (record q' { slots = put i none q'.slots }) in (r ∷ rest.0, rest.1)
  ])
]
