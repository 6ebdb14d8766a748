-- ===== src/FileTransfer/Marks.antt =====
-- Which status each device has after the receives of a file transfer in server/datainfo_server.c.
use mathlib.Core.Option
use rmt_library.Common.{
  ℕ, zero, suc, ◌+◌, ◌∙◌, ◌≡◌, refl, Bool, if◌then◌else◌, ◌==◌, Option, none, some, List, [], ◌∷◌,
  ◌++◌, length, length-append, arith, Bool-cases, inl, inr, ap, sym, Option-cases,
}
use rmt_library.Types.{Reply, TransferResult}
use rmt_library.Transport.{Taken}
use rmt_library.Transport.Receive.{samples, deliver, try_recv_instance_lem}
use rmt_library.DevInfo.{Node}
use rmt_library.DevInfo.Loops.{put_status}
use rmt_library.DevInfo.Lookup.{lookup}
use rmt_library.DevInfo.Status.{Marked}
use rmt_library.FileTransfer.{Transfer, State, is_mine, recv_reply, receive, head_takes, tail_takes}
use rmt_library.FileTransfer.Receipt.{status_for, result_for, recv_reply_lem, counting, Serves}

-- the replies to a transfer among some samples, and among those of some rounds of receives
abbrev pub mine : Transfer → List (Taken Reply) → List Reply
mine t [] = []
mine t (a ∷ takes) = if is_mine t a.sample then a.sample ∷ mine t takes else mine t takes

abbrev pub mine_in : Transfer → ℕ → List (List (Taken Reply)) → List Reply
mine_in t zero feed = []
mine_in t (suc i) feed = mine t (samples (head_takes feed)) ++ mine_in t i (tail_takes feed)

-- the last reply of a device
abbrev pub last_from : ℕ → List Reply → Option Reply
last_from j [] = none
last_from j (m ∷ ms) = elim (last_from j ms) [
  | some later ↦ some later
  | none ↦ if m.device_id == j then some m else none
]

is_mine-counting : (t : Transfer) (n : ℕ) (m : Reply) → is_mine (counting t n) m ≡ is_mine t m
unfolding is_mine
is_mine-counting t n m = refl

module _ (malloc_ok : ℕ → Bool) (junk : TransferResult) where
  abbrev pub put_reply : Reply → Node → Node
  put_reply m = put_status (status_for malloc_ok junk m) (result_for malloc_ok junk m)

  -- the entry of a device behind some replies
  abbrev pub marked : ℕ → List Reply → Option Node → Option Node
  marked j [] o = o
  marked j (m ∷ ms) o = marked j ms (if m.device_id == j then Option.map (put_reply m) o else o)

  marked-append :
      (j : ℕ) (xs ys : List Reply) (o : Option Node)
      → marked j (xs ++ ys) o ≡ marked j ys (marked j xs o)
  marked-append j [] ys o = refl
  marked-append j (m ∷ xs) ys o =
      marked-append j xs ys (if m.device_id == j then Option.map (put_reply m) o else o)

  put_over :
      (m n : Reply) (o : Option Node)
      → Option.map (put_reply m) (Option.map (put_reply n) o) ≡ Option.map (put_reply m) o
  put_over m n none = refl
  put_over m n (some x) = refl

  -- Only the last reply of a device counts.
  pub marked-last :
      (j : ℕ) (ms : List Reply) (o : Option Node)
      → marked j ms o ≡ elim (last_from j ms) [ none ↦ o | some m ↦ Option.map (put_reply m) o ]
  marked-last j [] o = refl
  marked-last j (m ∷ ms) o =
      let ih = marked-last j ms (if m.device_id == j then Option.map (put_reply m) o else o) in
      elim (Option-cases (last_from j ms)) [
        | inl e ↦ ih ∙ ground (arith, e)
        | inr (later, e) ↦ ih ∙ ground (arith, e, put_over later m o)
      ]

  -- A state of the transfer `t` with the entries and the count that some replies leave behind `s`.
  pub record Counted (t : Transfer) (s : State) (ms : List Reply) (s' : State) : Type 0 where
    pub serves : Serves t s'
    pub count : s'.transfer.recv_num ≡ s.transfer.recv_num + length ms
    pub entries : (j : ℕ) → lookup j s'.registry ≡ marked j ms (lookup j s.registry)

module _ (malloc_ok : ℕ → Bool) (junk : TransferResult) {t : Transfer} where
  Counted-nil : {s : State} → Serves t s → Counted malloc_ok junk t s [] s
  Counted-nil v = record { serves = v; count = omega arith; entries = λ j. refl }

  Counted-append :
      {s s₁ s₂ : State} {xs ys : List Reply}
      → Counted malloc_ok junk t s xs s₁
      → Counted malloc_ok junk t s₁ ys s₂
      → Counted malloc_ok junk t s (xs ++ ys) s₂
  Counted-append {s} {xs = xs} {ys = ys} c d = record {
    serves = d.serves;
    count = omega (arith, c.count, d.count, length-append xs ys);
    entries = λ j.
        d.entries j
        ∙ ap (marked malloc_ok junk j ys) (c.entries j)
        ∙ sym (marked-append malloc_ok junk j xs ys (lookup j s.registry));
  }

  Counted-one :
      (m : Reply) {s s' : State}
      → Serves t s
      → Marked m.device_id
          (status_for malloc_ok junk m)
          (result_for malloc_ok junk m)
          s.registry
          s'.registry
      → s'.transfer ≡ counting s.transfer (s.transfer.recv_num + 1)
      → Counted malloc_ok junk t s (m ∷ []) s'
  Counted-one m v k e = record {
    serves = record { good = k.good; same = ground (arith, v.same, e) };
    count = ground (arith, e);
    entries = λ j. k.entry j;
  }

  deliver-Counted :
      (takes : List (Taken Reply)) {s : State}
      → Serves t s
      → (s' : State) × (deliver (λ a. recv_reply malloc_ok junk a.sample) takes s ≡ some s')
        × Counted malloc_ok junk t s (mine t takes) s'
  deliver-Counted [] {s} v = (s, refl, Counted-nil v)
  deliver-Counted (a ∷ takes) {s} v =
      let (s₁, e₁, w) = recv_reply_lem malloc_ok junk a.sample s v.good in
      let same : is_mine s.transfer a.sample ≡ is_mine t a.sample =
        ap (λ u. is_mine u a.sample) v.same ∙ is_mine-counting t s.transfer.recv_num a.sample in
      elim (Bool-cases (is_mine t a.sample)) [
        | inr other ↦
            let stay : s₁ ≡ s = rw (same, other) at w in
            let (s₂, e₂, c) = deliver-Counted takes v in
            (s₂, rw (e₁ ∙ ap some stay, deliver) e₂, rw other c)
        | inl is ↦
            let k : Marked a.sample.device_id (status_for malloc_ok junk a.sample)
                  (result_for malloc_ok junk a.sample) s.registry s₁.registry
                × (s₁.transfer ≡ counting s.transfer (s.transfer.recv_num + 1)) =
              rw (same, is) at w in
            let c₁ = Counted-one a.sample v k.0 k.1 in
            let (s₂, e₂, c₂) = deliver-Counted takes c₁.serves in
            (s₂, rw (e₁, deliver) e₂, rw is (Counted-append c₁ c₂))
      ]

  pub receive-Counted :
      (i : ℕ) (feed : List (List (Taken Reply))) {s : State}
      → Serves t s
      → (s' : State) × (receive malloc_ok junk i feed s ≡ some s')
        × Counted malloc_ok junk t s (mine_in t i feed) s'
  unfolding receive
  receive-Counted zero feed {s} v = (s, refl, Counted-nil v)
  receive-Counted (suc i) feed {s} v =
      let (s₁, e₁, c₁) = deliver-Counted (samples (head_takes feed)) v in
      let (s₂, e₂, c₂) = receive-Counted i (tail_takes feed) c₁.serves in
      (
        s₂,
        rw (try_recv_instance_lem (recv_reply malloc_ok junk) (head_takes feed) s, receive, e₁) e₂,
        Counted-append c₁ c₂,
      )
