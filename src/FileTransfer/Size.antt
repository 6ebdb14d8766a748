-- ===== src/FileTransfer/Size.antt =====
-- How many devices a call of `dataserver_info_file_transfer_thread` in server/datainfo_server.c leaves in the
-- registry, and the begin of a transfer: as many as they find.
use rmt_library.Common.{
  leb, ℕ, zero, suc, ◌-◌, ◌≡◌, Bool, Option, none, some, List, [], ◌∷◌, length, arith, ltb, ◌==◌,
  Option-cases, Bool-cases, inl, inr, ◌∙◌, Bytes, ℤ, take, ◌%◌, ◌^◌,
}
use rmt_library.Types.{
  Request, import, export, status_running, Reply, TransferResult, status_agent_error, empty_result,
}
use rmt_library.Transport.{Taken}
use rmt_library.Transport.Receive.{samples, deliver, try_recv_instance_lem}
use rmt_library.DevInfo.{Registry, get_status, set_status}
use rmt_library.DevInfo.Size.{set_status-size}
use rmt_library.FileTransfer.{
  State, is_mine, outcome, recv_reply, head_takes, tail_takes, receive, expire, expire_all,
  complete, check_timeout, tick, is_running, mark_running, launch, send_file, recv_file,
  file_message,
}

-- the number of devices
abbrev pub size : State → ℕ
size s = length s.registry.dev_head

expire-size :
    (i : ℕ) (ids : List ℕ) (r r' : Registry)
    → expire i ids r ≡ some r'
    → length r'.dev_head ≡ length r.dev_head
unfolding expire
expire-size zero ids r r' e = ground (arith, e)
expire-size (suc i) [] r r' e = absurd (ground (arith, e))
expire-size (suc i) (id ∷ ids) r r' e = elim (Option-cases (get_status id r)) [
  | inl fault ↦ absurd (ground (arith, e, fault))
  | inr (got, f) ↦ elim (Bool-cases (is_running got.0)) [
    | inr done ↦ expire-size i ids r r' (ground (arith, e, f, done))
    | inl runs ↦ elim (Option-cases (set_status id status_agent_error empty_result r)) [
      | inl fault ↦ absurd (ground (arith, e, f, runs, fault))
      | inr (a, g) ↦
          expire-size i ids a.1 r' (ground (arith, e, f, runs, g))
          ∙ set_status-size id status_agent_error empty_result r g
    ]
  ]
]

expire_all-size :
    (i : ℕ) (l : Option (List ℕ)) (r r' : Registry)
    → expire_all i l r ≡ some r'
    → length r'.dev_head ≡ length r.dev_head
unfolding expire_all
expire_all-size zero l r r' e = ground (arith, e)
expire_all-size (suc i) none r r' e = absurd (ground (arith, e))
expire_all-size (suc i) (some ids) r r' e = expire-size (suc i) ids r r' e

module _ (malloc_ok : ℕ → Bool) (junk : TransferResult) where
  recv_reply-size :
      (msg : Reply) (s s' : State) → recv_reply malloc_ok junk msg s ≡ some s' → size s' ≡ size s
  unfolding recv_reply
  recv_reply-size msg s s' e = elim (Bool-cases (is_mine s.transfer msg)) [
    | inr other ↦ ground (arith, e, other)
    | inl mine ↦
        let (status, result) = outcome malloc_ok junk msg in
        elim (Option-cases (set_status msg.device_id status result s.registry)) [
          | inl fault ↦ absurd (ground (arith, e, mine, fault))
          | inr (r, f) ↦
              ground (arith, e, mine, f, set_status-size msg.device_id status result s.registry f)
        ]
  ]

  deliver-size :
      (takes : List (Taken Reply)) (s s' : State)
      → deliver (λ a. recv_reply malloc_ok junk a.sample) takes s ≡ some s'
      → size s' ≡ size s
  deliver-size [] s s' e = ground (arith, e)
  deliver-size (a ∷ takes) s s' e = elim (Option-cases (recv_reply malloc_ok junk a.sample s)) [
    | inl fault ↦ absurd (ground (arith, e, fault))
    | inr (s₁, f) ↦
        deliver-size takes s₁ s' (ground (arith, e, f)) ∙ recv_reply-size a.sample s s₁ f
  ]

  receive-size :
      (i : ℕ) (feed : List (List (Taken Reply))) (s s' : State)
      → receive malloc_ok junk i feed s ≡ some s'
      → size s' ≡ size s
  unfolding receive
  receive-size zero feed s s' e = ground (arith, e)
  receive-size (suc i) feed s s' e =
      let got = try_recv_instance_lem (recv_reply malloc_ok junk) (head_takes feed) s in
      elim (Option-cases
        (deliver (λ a. recv_reply malloc_ok junk a.sample) (samples (head_takes feed)) s)) [
          | inl fault ↦ absurd (ground (arith, e, got, fault))
          | inr (s₁, f) ↦
              receive-size i (tail_takes feed) s₁ s' (ground (arith, e, got, f))
              ∙ deliver-size (samples (head_takes feed)) s s₁ f
        ]

  check_timeout-size :
      (timeout now : ℕ) (s s' : State) → check_timeout timeout now s ≡ some s' → size s' ≡ size s
  unfolding check_timeout
  check_timeout-size timeout now s s' e =
      elim (Bool-cases (ltb timeout (now - s.transfer.start_time))) [
        | inr early ↦ ground (arith, e, early)
        | inl late ↦
            elim (Option-cases (expire_all s.transfer.id_num s.transfer.id_list s.registry)) [
              | inl fault ↦ absurd (ground (arith, e, late, fault))
              | inr (r, f) ↦ ground (
                arith,
                e,
                late,
                f,
                expire_all-size s.transfer.id_num s.transfer.id_list s.registry r f,
              )
            ]
      ]

  -- A call leaves the number of devices in the registry.
  pub tick-size :
      (feed : List (List (Taken Reply))) (timeout now : ℕ) (s s' : State)
      → tick malloc_ok junk feed timeout now s ≡ some s'
      → size s' ≡ size s
  unfolding tick
  tick-size feed timeout now s s' e = elim (Bool-cases (s.transfer.status == 1)) [
    | inr idle ↦ ground (arith, e, idle)
    | inl runs ↦
        let n = s.transfer.id_num - s.transfer.recv_num in
        elim (Option-cases (receive malloc_ok junk n feed s)) [
          | inl fault ↦ absurd (ground (arith, e, runs, fault))
          | inr (s₁, f) ↦ elim (Option-cases (check_timeout timeout now (complete s₁))) [
            | inl fault ↦ absurd (ground (arith, e, runs, f, fault))
            | inr (s₂, g) ↦ ground (
              arith,
              e,
              runs,
              f,
              g,
              receive-size n feed s s₁ f,
              check_timeout-size timeout now (complete s₁) s₂ g,
            )
          ]
        ]
  ]

mark_running-size :
    (ids : List ℕ) (r r' : Registry)
    → mark_running ids r ≡ some r'
    → length r'.dev_head ≡ length r.dev_head
unfolding mark_running
mark_running-size [] r r' e = ground (arith, e)
mark_running-size (id ∷ ids) r r' e =
    elim (Option-cases (set_status id status_running empty_result r)) [
      | inl fault ↦ absurd (ground (arith, e, fault))
      | inr (a, f) ↦
          mark_running-size ids a.1 r' (ground (arith, e, f))
          ∙ set_status-size id status_running empty_result r f
    ]

launch-size :
    (seq now : ℕ) (req : Request) (s : State) {r : ℤ × Option Request × State}
    → launch seq now req s ≡ some r
    → size r.2 ≡ size s
unfolding launch
launch-size seq now req s e = elim (Option-cases (mark_running req.id_list s.registry)) [
  | inl fault ↦ absurd (ground (arith, e, fault))
  | inr (m, f) ↦ ground (arith, e, f, mark_running-size req.id_list s.registry m f)
]

-- The two begins leave the number of devices in the registry.
pub send_file-size :
    (seq now : ℕ) (ids : List ℕ) (callback filename file : Bytes) (file_len : ℕ) (s : State)
    {r : ℤ × Option Request × State}
    → send_file seq now ids callback filename file file_len s ≡ some r
    → size r.2 ≡ size s
unfolding send_file
send_file-size seq now ids callback filename file file_len s {r} e =
    elim (Bool-cases (s.transfer.status == 0)) [
      | inr busy ↦ ground (arith, e, busy)
      | inl idle ↦ elim (Option-cases (file_message callback filename)) [
        | inl fault ↦ absurd (ground (arith, e, idle, fault))
        | inr (msg, f) ↦ elim (Bool-cases (leb (file_len % 2 ^ 32) (length file))) [
          | inr over ↦ absurd (ground (arith, e, idle, f, over))
          | inl within ↦
              launch-size seq now
                (record {
                  id_list = ids;
                  type = import;
                  random_seq = seq;
                  msg = msg;
                  binary = take (file_len % 2 ^ 32) file;
                })
                s {r = r} (ground (arith, e, idle, f, within))
        ]
      ]
    ]

pub recv_file-size :
    (seq now id : ℕ) (callback filename : Bytes) (s : State) {r : ℤ × Option Request × State}
    → recv_file seq now id callback filename s ≡ some r
    → size r.2 ≡ size s
unfolding recv_file
recv_file-size seq now id callback filename s {r} e = elim (Bool-cases (s.transfer.status == 0)) [
  | inr busy ↦ ground (arith, e, busy)
  | inl idle ↦ elim (Option-cases (file_message callback filename)) [
    | inl fault ↦ absurd (ground (arith, e, idle, fault))
    | inr (msg, f) ↦
        launch-size seq now
          (record { id_list = id ∷ []; type = export; random_seq = seq; msg = msg; binary = [] }) s
          {r = r} (ground (arith, e, idle, f))
  ]
]
