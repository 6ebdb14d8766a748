-- ===== src/Agent/Requests/Update.antt =====
-- One update of agent/datainfo_agent.c: the replies to a batch of requests.
use mathlib.Core.Option
use mathlib.Core.List.{append-nil, append_assoc}
use rmt_library.Common.{
  ℕ, ◌+◌, ◌<◌, ◌≤◌, ◌≡◌, refl, Option, none, some, List, [], ◌∷◌, ◌++◌, Bytes, length,
  length-append, arith, Option-cases, Bool-cases, ltb, inl, inr,
}
use rmt_library.Types.{Request, Reply}
use rmt_library.Transport.{Taken, data_req}
use rmt_library.Transport.Receive.{samples, deliver, try_recv_lem}
use rmt_library.Agent.Queue.{queue_size, push}
use rmt_library.Agent.Queue.Fifo.{Holds, push-Holds, push_full, push_lem, send_data-Holds}
use rmt_library.Agent.Info.{found_idx}
use rmt_library.Agent.Requests.{Setup, State, handle, reply_to, recv_request, update}

module _ {W : Type 0} (a : Setup W) where
  -- The replies to the requests that name this agent, in order, and the world behind them; `none` if
  -- one of the handlers faults.
  abbrev pub serve : List (Taken Request) → W → Option (List Reply × W)
  serve [] w = some ([], w)
  serve (t ∷ takes) w = elim (found_idx a.my_id t.sample.id_list) [
    | none ↦ serve takes w
    | some idx ↦ (elim (handle a t.sample idx w) [
      | none ↦ none
      | some (msg, binary, w') ↦
          Option.map (λ r. (reply_to a t.sample msg binary ∷ r.0, r.1)) (serve takes w')
    ])
  ]

  recv_request-other :
      (req : Request) (s : State W)
      → found_idx a.my_id req.id_list ≡ none
      → recv_request a req s ≡ some s
  unfolding recv_request
  recv_request-other req s e = ground (arith, e)

  recv_request-push :
      (req : Request) (s : State W) {idx : ℕ} {msg binary : Bytes} {w' : W}
      → found_idx a.my_id req.id_list ≡ some idx
      → handle a req idx s.world ≡ some (msg, binary, w')
      → recv_request a req s
        ≡ Option.map
            (λ q. record { queue = q; world = w' })
            (push (reply_to a req msg binary) s.queue)
  unfolding recv_request
  recv_request-push req s {idx} {msg} {binary} {w'} e h =
      ground (arith, e, h, push_lem (reply_to a req msg binary) s.queue)

  deliver-step :
      (t : Taken Request) (takes : List (Taken Request)) (s s₁ : State W) {o : Option (State W)}
      → recv_request a t.sample s ≡ some s₁
      → deliver (λ t. recv_request a t.sample) takes s₁ ≡ o
      → deliver (λ t. recv_request a t.sample) (t ∷ takes) s ≡ o
  deliver-step t takes s s₁ e d = rw (e, deliver) d

  deliver-serve :
      (takes : List (Taken Request)) (s : State W) (rs out : List Reply) (w' : W)
      → Holds s.queue rs
      → serve takes s.world ≡ some (out, w')
      → length rs + length out ≤ 15
      → (s' : State W) × (deliver (λ t. recv_request a t.sample) takes s ≡ some s')
        × Holds s'.queue (rs ++ out)
        × (s'.world ≡ w')
  deliver-serve [] s rs out w' h e k = (s, refl, nil_out, w_eq)
    where
      nil_out : Holds s.queue (rs ++ out)
      nil_out = ground (arith, h, e, append-nil rs)

      w_eq : s.world ≡ w'
      w_eq = ground (arith, e)
  deliver-serve (t ∷ takes) s rs out w' h e k =
      elim (Option-cases (found_idx a.my_id t.sample.id_list)) [
        | inl other ↦
            let (s', d, h', w) = deliver-serve takes s rs out w' h (ground (arith, other, e)) k in
            (s', deliver-step t takes s s (recv_request-other t.sample s other) d, h', w)
        | inr (idx, mine) ↦ elim (Option-cases (handle a t.sample idx s.world)) [
          | inl fault ↦ ground (arith, mine, fault)
          | inr ((msg, binary, w₁), done) ↦ elim (Option-cases (serve takes w₁)) [
            | inl fault ↦ ground (arith, mine, done, fault)
            | inr ((out', w₂), more) ↦
                let r = reply_to a t.sample msg binary in
                let shape : (out ≡ r ∷ out') × (w₂ ≡ w') = ground (arith, mine, done, more, e) in
                let (q', pushed, h₁) = push-Holds r h (ground (arith, shape.0)) in
                let (s', d, h', w) =
                  deliver-serve takes (record { queue = q'; world = w₁ }) (rs ++ r ∷ []) out' w' h₁
                    (rw (← shape.1) more) (ground (arith, length-append rs (r ∷ []), shape.0, k)) in
                (
                  s',
                  deliver-step t takes s (record { queue = q'; world = w₁ })
                      (ground (arith, recv_request-push t.sample s mine done, pushed)) d,
                  ground (arith, h', shape.0, append_assoc rs (r ∷ []) out'),
                  w,
                )
          ]
        ]
      ]

  deliver-fault :
      (t : Taken Request) (takes : List (Taken Request)) (s : State W)
      → recv_request a t.sample s ≡ none
      → deliver (λ t. recv_request a t.sample) (t ∷ takes) s ≡ none
  deliver-fault t takes s e = rw (e, deliver) refl

  deliver-serve_full :
      (takes : List (Taken Request)) (s : State W) (rs out : List Reply) (w' : W)
      → Holds s.queue rs
      → serve takes s.world ≡ some (out, w')
      → 15 < length rs + length out
      → deliver (λ t. recv_request a t.sample) takes s ≡ none
  deliver-serve_full [] s rs out w' h e k = ground (arith, e, h.room)
  deliver-serve_full (t ∷ takes) s rs out w' h e k =
      elim (Option-cases (found_idx a.my_id t.sample.id_list)) [
        | inl other ↦
            let d = deliver-serve_full takes s rs out w' h (ground (arith, other, e)) k in
            rw (recv_request-other t.sample s other, deliver) d
        | inr (idx, mine) ↦ elim (Option-cases (handle a t.sample idx s.world)) [
          | inl fault ↦ ground (arith, mine, fault)
          | inr ((msg, binary, w₁), done) ↦ elim (Option-cases (serve takes w₁)) [
            | inl fault ↦ ground (arith, mine, done, fault)
            | inr ((out', w₂), more) ↦
                let r = reply_to a t.sample msg binary in
                let shape : (out ≡ r ∷ out') × (w₂ ≡ w') = ground (arith, mine, done, more, e) in
                elim (Bool-cases (ltb (length rs) 15)) [
                  | inl room ↦
                      let (q', pushed, h₁) = push-Holds r h (ground (arith, room)) in
                      deliver-step t takes s (record { queue = q'; world = w₁ })
                        (ground (arith, recv_request-push t.sample s mine done, pushed))
                        (deliver-serve_full takes (record { queue = q'; world = w₁ }) (rs ++ r ∷ [])
                          out' w₂ h₁ more (ground (arith, length-append rs (r ∷ []), shape.0, k)))
                  | inr full ↦ deliver-fault t takes s (
                      ground (
                        arith,
                        recv_request-push t.sample s mine done,
                        push_full r h (ground (arith, full, h.room)),
                      ))
                ]
          ]
        ]
      ]

  -- One update of an agent whose queue is empty, when the requests in its reader give at most fifteen
  -- replies and no handler faults: it sends exactly those replies, in the order of their requests, with
  -- the world passed from handler to handler, and leaves the queue empty.
  pub update_lem :
      (takes : List (Taken Request)) (s : State W) (out : List Reply) (w' : W)
      → Holds s.queue []
      → serve (samples takes) s.world ≡ some (out, w')
      → length out ≤ 15
      → (s' : State W) × (update a takes s ≡ some (out, s')) × Holds s'.queue [] × (s'.world ≡ w')
  unfolding update
  update_lem takes s out w' h e k =
      let (s₁, d, h₁, w) = deliver-serve (samples takes) s [] out w' h e (omega arith) in
      let (q', sent, h') = send_data-Holds queue_size out h₁ (omega arith) in
      (
        record s₁ { queue = q' },
        ground (arith, try_recv_lem data_req (λ req handle. recv_request a req) takes s, d, sent),
        h',
        w,
      )

  -- If the queue is empty, no handler faults and the requests in the reader give more than fifteen
  -- replies, the update writes in front of its array.
  pub update_overflow :
      (takes : List (Taken Request)) (s : State W) (out : List Reply) (w' : W)
      → Holds s.queue []
      → serve (samples takes) s.world ≡ some (out, w')
      → 15 < length out
      → update a takes s ≡ none
  unfolding update
  update_overflow takes s out w' h e k = ground (
    arith,
    try_recv_lem data_req (λ req handle. recv_request a req) takes s,
    deliver-serve_full (samples takes) s [] out w' h e (omega arith),
  )
