-- ===== src/DataInfo/Wait.antt =====
-- The wait for replies of server/datainfo_server.c: what it returns, when it ends, when it faults.
use mathlib.Core.List.{append-nil, append_assoc}
use rmt_library.Common.{
  ℕ, ◌+◌, ◌-◌, ◌≤◌, ◌<◌, ◌≡◌, ◌≢◌, ◌⊎◌, refl, ap, if◌then◌else◌, leb, ltb, ◌==◌, List, [], ◌∷◌,
  ◌++◌, arith, length, length-append, Bool-cases, inl, inr, ◌∙◌, All,
}
use rmt_library.Types.{Entry, Request}
use rmt_library.Transport.Receive.{samples}
use rmt_library.DataInfo.{fault, pending, finished, Round, collect}
use rmt_library.DataInfo.Replies.{entries, receive_lem}

-- the entries that some rounds bring in, in order
abbrev pub gathered : Request → List Round → List Entry
gathered req [] = []
gathered req (r ∷ rounds) = entries req (samples r.takes) ++ gathered req rounds

-- the time behind the last of some rounds
abbrev pub last_time : ℕ → List Round → ℕ
last_time now [] = now
last_time now (r ∷ rounds) = last_time r.now rounds

-- how a wait steps from one round to the next
collect_step :
    (req : Request) (id_num start timeout now : ℕ) (r : Round) (rounds : List Round)
    (replys : List Entry)
    → length replys ≤ id_num
    → collect req id_num start timeout now (r ∷ rounds) replys ≡ (
        if length replys == id_num
        then finished replys
        else if ltb timeout (now - start)
        then finished replys
        else if leb (length replys + length (entries req (samples r.takes))) id_num
        then collect req id_num start timeout r.now rounds (replys ++ entries req (samples r.takes))
        else fault)
unfolding collect
collect_step req id_num start timeout now r rounds replys h =
    ground (arith, receive_lem req id_num r.takes replys)

nil_of_length : (l : List Entry) → length l ≡ 0 → l ≡ []
nil_of_length [] h = refl
nil_of_length (x ∷ l) h = absurd (omega arith)

module _ (req : Request) (id_num start timeout : ℕ) where
  -- What a wait has returned: the replies that it had and the answers of the rounds that it made, no more
  -- than were asked for; and either all that were asked for, or the time is out.
  abbrev pub Returned : ℕ → List Round → List Entry → List Entry → Type 0
  Returned now rounds replys out =
      (before : List Round) × (after : List Round) × (rounds ≡ before ++ after)
      × (out ≡ replys ++ gathered req before)
      × (length out ≤ id_num)
      × ((length out ≡ id_num) ⊎ (timeout < last_time now before - start))

  Returned-now :
      (now : ℕ) (rounds : List Round) (replys out : List Entry)
      → length replys ≤ id_num
      → ((length replys ≡ id_num) ⊎ (timeout < now - start))
      → finished replys ≡ finished out
      → Returned now rounds replys out
  Returned-now now rounds replys out h s e =
      ([], rounds, refl, ground (arith, append-nil replys), ground arith, ground arith)

  Returned-later :
      (now : ℕ) (r : Round) (rounds : List Round) (replys out : List Entry)
      → Returned r.now rounds (replys ++ entries req (samples r.takes)) out
      → Returned now (r ∷ rounds) replys out
  Returned-later now r rounds replys out (before, after, e, o, n, s) = (
    r ∷ before,
    after,
    ap (λ l. r ∷ l) e,
    o ∙ append_assoc replys (entries req (samples r.takes)) (gathered req before),
    n,
    s,
  )

  -- If a wait that starts with no more replies than were asked for returns, what it returns is the
  -- replies that it had and the answers in the rounds that it has made, in order; never more than
  -- were asked for; and exactly as many, unless the time has run out.
  pub collect-Returned :
      (now : ℕ) (rounds : List Round) (replys out : List Entry)
      → length replys ≤ id_num
      → collect req id_num start timeout now rounds replys ≡ finished out
      → Returned now rounds replys out
  collect-Returned now [] replys out h e =
      unfold collect in
      elim (Bool-cases (length replys == id_num)) [
        | inl all ↦ Returned-now now [] replys out h (inl (ground arith)) (rw all at e)
        | inr some_left ↦ elim (Bool-cases (ltb timeout (now - start))) [
          | inl late ↦ Returned-now now [] replys out h (inr (ground arith)) (ground arith)
          | inr early ↦ ground arith
        ]
      ]
  collect-Returned now (r ∷ rounds) replys out h e = elim (Bool-cases (length replys == id_num)) [
    | inl all ↦
        Returned-now now (r ∷ rounds) replys out h (inl (ground arith))
          (ground (arith, collect_step req id_num start timeout now r rounds replys h))
    | inr some_left ↦ elim (Bool-cases (ltb timeout (now - start))) [
      | inl late ↦
          Returned-now now (r ∷ rounds) replys out h (inr (ground arith))
            (ground (arith, collect_step req id_num start timeout now r rounds replys h))
      | inr early ↦
          elim (Bool-cases (leb (length replys + length (entries req (samples r.takes))) id_num)) [
            | inl fits ↦ Returned-later now r rounds replys out (
                collect-Returned r.now rounds (replys ++ entries req (samples r.takes)) out
                  (ground (arith, length-append replys (entries req (samples r.takes))))
                  (ground (arith, collect_step req id_num start timeout now r rounds replys h)))
            | inr excess ↦
                ground (arith, collect_step req id_num start timeout now r rounds replys h)
          ]
    ]
  ]

  -- A wait with no more replies than were asked for that is given a round behind which the time is
  -- out ends: it does not stay pending.
  pub collect_ends :
      (now : ℕ) (rounds : List Round) (replys : List Entry)
      → length replys ≤ id_num
      → timeout < last_time now rounds - start
      → collect req id_num start timeout now rounds replys ≢ pending
  collect_ends now [] replys h late = unfold collect in ground arith
  collect_ends now (r ∷ rounds) replys h late = ground (
    arith,
    collect_step req id_num start timeout now r rounds replys h,
    length-append replys (entries req (samples r.takes)),
    collect_ends r.now rounds (replys ++ entries req (samples r.takes)),
  )

  -- If no round brings in more answers than are left to come, no write leaves the buffer.
  pub collect_safe :
      (now : ℕ) (rounds : List Round) (replys : List Entry)
      → length replys + length (gathered req rounds) ≤ id_num
      → collect req id_num start timeout now rounds replys ≢ fault
  collect_safe now [] replys h = unfold collect in ground arith
  collect_safe now (r ∷ rounds) replys h = ground (
    arith,
    collect_step req id_num start timeout now r rounds replys,
    length-append replys (entries req (samples r.takes)),
    length-append (entries req (samples r.takes)) (gathered req rounds),
    collect_safe r.now rounds (replys ++ entries req (samples r.takes)),
  )

  -- If every round is in time and the answers make up the number that is asked for, the wait returns
  -- all of them, in order.
  pub collect_complete :
      (now : ℕ) (rounds : List Round) (replys : List Entry)
      → now - start ≤ timeout
      → All (λ r. r.now - start ≤ timeout) rounds
      → length replys + length (gathered req rounds) ≡ id_num
      → collect req id_num start timeout now rounds replys
        ≡ finished (replys ++ gathered req rounds)
  collect_complete now [] replys t ts h = unfold collect in ground (arith, append-nil replys)
  collect_complete now (r ∷ rounds) replys t ts h = ground (
    arith,
    collect_step req id_num start timeout now r rounds replys,
    length-append replys (entries req (samples r.takes)),
    length-append (entries req (samples r.takes)) (gathered req rounds),
    append_assoc replys (entries req (samples r.takes)) (gathered req rounds),
    collect_complete r.now rounds (replys ++ entries req (samples r.takes)) ts.0 ts.1,
    nil_of_length (entries req (samples r.takes) ++ gathered req rounds),
    append-nil replys,
  )

  -- The buffer is not guarded: a round in time that brings in more answers than are left to come, as
  -- when a device answers twice, makes a write behind it.
  pub collect_fault :
      (now : ℕ) (r : Round) (rounds : List Round) (replys : List Entry)
      → now - start ≤ timeout
      → length replys < id_num
      → id_num < length replys + length (entries req (samples r.takes))
      → collect req id_num start timeout now (r ∷ rounds) replys ≡ fault
  collect_fault now r rounds replys t h more =
      ground (arith, collect_step req id_num start timeout now r rounds replys)
