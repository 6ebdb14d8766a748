-- ===== src/Transport/Receive.antt =====
-- The receive loops of common/dds_transport.c: which samples reach the callback.
use mathlib.Core.Option
use rmt_library.Common.{
  ℕ, ◌≡◌, refl, Bool, ◌&&◌, not, if◌then◌else◌, Option, none, some, List, [], ◌∷◌, ℤ, pos,
  minus_one, is_neg, drop, inl, inr, Option-cases, Bool-cases,
}
use rmt_library.Transport.{PairKind, is_dev_info, Taken, is_pos, try_recv, try_recv_instance}

module _ {ℓ} {M : Type ℓ} where
  -- an answer that carries a sample for the callback
  abbrev pub is_sample : Taken M → Bool
  is_sample t = not (is_neg t.rc) && (is_pos t.rc && t.valid_data)

  -- the answers before the first one without a sample, and those from it on
  abbrev pub samples : List (Taken M) → List (Taken M)
  samples [] = []
  samples (t ∷ takes) = if is_sample t then t ∷ samples takes else []

  abbrev pub stopped : List (Taken M) → List (Taken M)
  stopped [] = []
  stopped (t ∷ takes) = if is_sample t then stopped takes else t ∷ takes

  -- the return code that the answer which stops the loop gives
  abbrev pub stop_code : List (Taken M) → ℤ
  stop_code [] = pos 0
  stop_code (t ∷ takes) = if is_neg t.rc then minus_one else pos 0

-- the callback on each sample in order, until it faults
abbrev pub deliver {ℓ κ} :
    {M : Type ℓ} {S : Type κ} → (Taken M → S → Option S) → List (Taken M) → S → Option S
deliver f [] s = some s
deliver f (t ∷ ts) s = elim (f t s) [ none ↦ none | some s' ↦ deliver f ts s' ]

module _ {ℓ κ} {M : Type ℓ} {S : Type κ} where
  -- A call of `dds_transport_try_recv` hands the callback every valid sample before the first answer
  -- without one, in order, each with the handle of its publication if the pair is the device info and
  -- with no handle otherwise. It returns -1 exactly when that answer is an error, consumes it, and
  -- leaves what comes behind it in the reader. If the callback faults on a sample, so does the call.
  pub try_recv_lem :
      (kind : PairKind) (func : M → ℕ → S → Option S) (takes : List (Taken M)) (s : S)
      → try_recv kind func takes s
        ≡ Option.map
            (λ s'. (stop_code (stopped takes), s', drop 1 (stopped takes)))
            (deliver
              (λ t. func t.sample (if is_dev_info kind then t.publication_handle else 0))
              (samples takes)
              s)
  unfolding try_recv
  try_recv_lem kind func [] s = refl
  try_recv_lem kind func (t ∷ takes) s = elim (Bool-cases (is_neg t.rc)) [
    | inl failed ↦ rw failed (rw failed refl)
    | inr answered ↦ rw answered (elim (Bool-cases (is_pos t.rc && t.valid_data)) [
      | inr empty ↦ rw empty (rw answered refl)
      | inl full ↦
          rw full
            (elim (Option-cases
              (func t.sample (if is_dev_info kind then t.publication_handle else 0) s)) [
                | inl fault ↦ rw fault refl
                | inr (s', e) ↦ rw e (try_recv_lem kind func takes s')
              ])
    ])
  ]

  -- `dds_transport_try_recv_instance` does the same with no handle.
  pub try_recv_instance_lem :
      (func : M → S → Option S) (takes : List (Taken M)) (s : S)
      → try_recv_instance func takes s
        ≡ Option.map
            (λ s'. (stop_code (stopped takes), s', drop 1 (stopped takes)))
            (deliver (λ t. func t.sample) (samples takes) s)
  unfolding try_recv_instance
  try_recv_instance_lem func [] s = refl
  try_recv_instance_lem func (t ∷ takes) s = elim (Bool-cases (is_neg t.rc)) [
    | inl failed ↦ rw failed (rw failed refl)
    | inr answered ↦ rw answered (elim (Bool-cases (is_pos t.rc && t.valid_data)) [
      | inr empty ↦ rw empty (rw answered refl)
      | inl full ↦ rw full (elim (Option-cases (func t.sample s)) [
        | inl fault ↦ rw fault refl
        | inr (s', e) ↦ rw e (try_recv_instance_lem func takes s')
      ])
    ])
  ]
