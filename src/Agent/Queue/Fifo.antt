-- ===== src/Agent/Queue/Fifo.antt =====
-- The ring of agent/datainfo_agent.c is a queue of at most fifteen replies.
use rmt_library.Common.{
  ℕ, zero, suc, ◌+◌, ◌%◌, ◌<◌, ◌≤◌, ◌≡◌, refl, Option, none, some, List, [], ◌∷◌, ◌++◌, length,
  length-append, arith,
}
use rmt_library.Types.{Reply}
use rmt_library.Agent.Queue.{Queue, queue_size, init, enqueue, dequeue, put, push, send_data}

-- the slots from index `j` on, going round, hold a list of replies
abbrev pub Window : (ℕ → Option Reply) → ℕ → List Reply → Type 0
Window slots j [] = Unit
Window slots j (r ∷ rs) = (slots (j % queue_size) ≡ some r) × Window slots (suc j) rs

-- The queue holds a list of replies, oldest first.
pub record Holds (q : Queue) (rs : List Reply) : Type 0 where
  pub front_in : q.front < queue_size
  pub room : length rs < queue_size
  pub rear_at : q.rear ≡ (q.front + length rs) % queue_size
  pub stored : Window q.slots (suc q.front) rs

pub init-Holds : Holds init []
unfolding init
init-Holds = record {
  front_in = omega arith;
  room = omega arith;
  rear_at = omega arith;
  stored = tt;
}

-- a write behind a window leaves it
Window-put :
    (slots : ℕ → Option Reply) (o : Option Reply) (i j m : ℕ) (rs : List Reply)
    → i ≡ (j + m) % queue_size
    → length rs ≤ m
    → m < queue_size
    → Window slots j rs
    → Window (put i o slots) j rs
unfolding put
Window-put slots o i j m [] e h k w = tt
Window-put slots o i j zero (r ∷ rs) e h k w = absurd (omega arith)
Window-put slots o i j (suc m) (r ∷ rs) e h k w = (
  ground (arith, w.0),
  Window-put slots o i (suc j) m rs (omega arith) (omega arith) (omega arith) w.1,
)

Window-mod :
    (slots : ℕ → Option Reply) (j k : ℕ) (rs : List Reply)
    → j % queue_size ≡ k % queue_size
    → Window slots j rs
    → Window slots k rs
Window-mod slots j k [] e w = tt
Window-mod slots j k (r ∷ rs) e w =
    (rw (← e) w.0, Window-mod slots (suc j) (suc k) rs (omega arith) w.1)

Window-snoc :
    (slots : ℕ → Option Reply) (r : Reply) (j : ℕ) (rs : List Reply)
    → Window slots j rs
    → slots ((j + length rs) % queue_size) ≡ some r
    → Window slots j (rs ++ r ∷ [])
Window-snoc slots r j [] w e = (ground (arith, e), tt)
Window-snoc slots r j (x ∷ rs) w e = (w.0, Window-snoc slots r (suc j) rs w.1 (rw (shift) e))
  where
    shift : suc j + length rs ≡ j + suc (length rs)
    shift = omega arith

-- A queue that holds fewer than fifteen replies takes a reply at its end.
pub push-Holds :
    (r : Reply) {q : Queue} {rs : List Reply}
    → Holds q rs
    → length rs < 15
    → (q' : Queue) × (push r q ≡ some q') × Holds q' (rs ++ r ∷ [])
unfolding push enqueue
push-Holds r {q} {rs} h room =
    let i = (q.rear + 1) % queue_size in
    let slots' = put i (some r) q.slots in
    (
      record q { rear = i; slots = slots' },
      ground (arith, h.room, h.rear_at),
      record {
        front_in = h.front_in;
        room = omega (arith, length-append rs (r ∷ []));
        rear_at = omega (arith, length-append rs (r ∷ []), h.rear_at, h.front_in);
        stored =
            Window-snoc slots' r (suc q.front) rs
              (Window-put q.slots (some r) i (suc q.front) (length rs) rs (omega (arith, h.rear_at))
                (omega arith) (omega arith) h.stored)
              (ground (arith, h.rear_at));
      },
    )

-- On a queue that holds fifteen replies the index is -1: a write in front of the array.
pub push_full :
    (r : Reply) {q : Queue} {rs : List Reply} → Holds q rs → length rs ≡ 15 → push r q ≡ none
unfolding push enqueue
push_full r {q} {rs} h full = ground (arith, h.rear_at, h.front_in)

-- Sending takes the replies out from the oldest to the newest, and leaves the queue empty; as many
-- rounds as the queue holds replies are enough.
pub send_data-Holds :
    (n : ℕ) (rs : List Reply) {q : Queue}
    → Holds q rs
    → length rs ≤ n
    → (q' : Queue) × (send_data n q ≡ (rs, q')) × Holds q' []
unfolding send_data dequeue
send_data-Holds zero [] {q} h k = (q, refl, h)
send_data-Holds zero (r ∷ rs) h k = absurd (omega arith)
send_data-Holds (suc n) [] {q} h k = (q, ground (arith, h.rear_at, h.front_in), h)
send_data-Holds (suc n) (r ∷ rs) {q} h k =
    let i = (q.front + 1) % queue_size in
    let q₁ = record q { front = i; slots = put i none q.slots } in
    let h₁ : Holds q₁ rs = record {
      front_in = omega (arith);
      room = omega (arith, h.room);
      rear_at = omega (arith, h.rear_at, h.front_in);
      stored = Window-mod q₁.slots (suc (suc q.front)) (suc i) rs (omega arith) (
          Window-put q.slots none i (suc (suc q.front)) 15 rs (omega arith) (omega (arith, h.room))
            (omega arith) h.stored.1);
    } in
    let (q', e, h') = send_data-Holds n rs h₁ (omega arith) in
    (q', ground (arith, h.rear_at, h.front_in, h.room, h.stored.0, e), h')

-- `push` in the two steps of `recv_request`.
pub push_lem :
    (r : Reply) (q : Queue)
    → push r q ≡ elim (enqueue q) [
      | none ↦ none
      | some (i, q') ↦ some (record q' { slots = put i (some r) q'.slots })
    ]
unfolding push
push_lem r q = refl
