-- ===== src/Server/Race/Safe.antt =====
-- When the transport of server/rmt_server.c is freed under no call: the calls come one after another, and the
-- thread does not overtake one.
use mathlib.Core.Path.{subst}
use rmt_library.Common.{ℕ, ◌≡◌, refl, sym, ◌∙◌, true, false, arith, List, [], ◌∷◌, ◌++◌, All}
use rmt_library.Server.{stat_stop}
use rmt_library.Server.Race.{
  Phase, polling, stopping, freeing, gone, Call, passed, raising, working, lowering, Shared,
  CallStep, pass, load, enter, finish, leave, ThreadStep, stop, wait, clear, free, revive, by_call,
  by_thread, ask_reinit, Reach, here, next, IsCounted, IsCareful, quiet, has_transport,
}

-- what `using_api` is beside a call that is alone
abbrev One : Call → ℕ → Type 0
One passed u = u ≡ 0
One (raising n) u = (n ≡ 0) × (u ≡ 0)
One working u = u ≡ 1
One (lowering n) u = (n ≡ 1) × (u ≡ 1)

-- one call at most, and the value of `using_api` beside it
abbrev Counts : List Call → ℕ → Type 0
Counts [] u = u ≡ 0
Counts (c ∷ []) u = One c u
Counts (c ∷ d ∷ calls) u = false ≡ true

-- the call that makes a step is alone
alone :
    (before : List Call) (c : Call) (after calls : List Call) (u : ℕ)
    → calls ≡ before ++ (c ∷ after)
    → Counts calls u
    → (before ≡ []) × (after ≡ []) × One c u
alone before c after calls u e h = split before after (rw e at h)
  where
    split :
        (before after : List Call)
        → Counts (before ++ (c ∷ after)) u
        → (before ≡ []) × (after ≡ []) × One c u
    split [] [] h = (refl, refl, h)
    split [] (d ∷ after) h = absurd (ground (arith, h))
    split (b ∷ []) after h = absurd (ground (arith, h))
    split (b ∷ b' ∷ before) after h = absurd (ground (arith, h))

-- a call that is counted keeps `using_api` from 0
nothing_counted :
    (calls : List Call) (u : ℕ) → u ≡ 0 → Counts calls u → All IsCounted calls → calls ≡ []
nothing_counted [] u z h c = refl
nothing_counted (passed ∷ []) u z h c = absurd (ground (arith, c.0))
nothing_counted (raising n ∷ []) u z h c = absurd (ground (arith, c.0))
nothing_counted (working ∷ []) u z h c = absurd (omega (arith, z, h))
nothing_counted (lowering n ∷ []) u z h c = absurd (omega (arith, z, h.1))
nothing_counted (c₀ ∷ d ∷ calls) u z h c = absurd (ground (arith, h))

not_empty :
    (before : List Call) (c : Call) (after calls : List Call)
    → calls ≡ before ++ (c ∷ after)
    → calls ≡ []
    → ⊥
not_empty [] c after calls e n = ground (arith, e, n)
not_empty (b ∷ before) c after calls e n = ground (arith, e, n)

-- the status is "stopped" and no call is under way
abbrev IsShut : Shared → Type 0
IsShut s = (s.status ≡ stat_stop) × (s.calls ≡ [])

-- what holds in each phase of the thread
abbrev Holds : Phase → Shared → Type 0
Holds polling s = Unit
Holds stopping s = s.status ≡ stat_stop
Holds freeing s = IsShut s
Holds gone s = IsShut s

record Inv (s : Shared) : Type 0 where
  counts : Counts s.calls s.using_api
  phase_holds : Holds s.phase s

Holds-map :
    (phase : Phase) (s t : Shared)
    → (s.status ≡ stat_stop → t.status ≡ stat_stop)
    → (IsShut s → IsShut t)
    → Holds phase s
    → Holds phase t
Holds-map polling s t f g h = tt
Holds-map stopping s t f g h = f h
Holds-map freeing s t f g h = g h
Holds-map gone s t f g h = g h

-- a step of a call that leaves the phase and the status
call-Inv :
    (s t : Shared) (before : List Call) (c : Call) (after : List Call)
    → Inv s
    → s.calls ≡ before ++ (c ∷ after)
    → t.phase ≡ s.phase
    → t.status ≡ s.status
    → Counts t.calls t.using_api
    → Inv t
call-Inv s t before c after i e same status counts = record {
  counts = counts;
  phase_holds =
      subst (λ phase. Holds phase t) (sym same)
        (Holds-map s.phase s t (λ h. status ∙ h)
          (λ h. absurd (not_empty before c after s.calls e h.1)) i.phase_holds);
}

Inv-call : {s t : Shared} → Inv s → (step : CallStep s t) → IsCareful s t (by_call step) → Inv t
Inv-call i (pass s e) c = record {
  counts = rw c (rw c at i.counts);
  phase_holds = Holds-map s.phase s _ (λ h. h) (λ h. absurd (ground (arith, e, h.0))) i.phase_holds;
}
Inv-call i (load s before after e) c =
    let (b, a, one) = alone before passed after s.calls s.using_api e i.counts in
    call-Inv s _ before passed after i e refl refl (rw (b, a) (one, one))
Inv-call i (enter s n before after e) c =
    let (b, a, one) = alone before (raising n) after s.calls s.using_api e i.counts in
    call-Inv s _ before (raising n) after i e refl refl (rw (b, a) (omega (arith, one.0)))
Inv-call i (finish s before after e) c =
    let (b, a, one) = alone before working after s.calls s.using_api e i.counts in
    call-Inv s _ before working after i e refl refl (rw (b, a) (one, one))
Inv-call i (leave s n before after e) c =
    let (b, a, one) = alone before (lowering n) after s.calls s.using_api e i.counts in
    call-Inv s _ before (lowering n) after i e refl refl (rw (b, a) (omega (arith, one.0)))

Inv-thread :
    {s t : Shared} → Inv s → (step : ThreadStep s t) → IsCareful s t (by_thread step) → Inv t
Inv-thread i (stop s e) c = record { counts = i.counts; phase_holds = refl }
Inv-thread i (wait s e) c = record { counts = i.counts; phase_holds = tt }
Inv-thread i (clear s e z) c = record {
  counts = i.counts;
  phase_holds = (rw e at i.phase_holds, nothing_counted s.calls s.using_api z i.counts c);
}
Inv-thread i (free s e) c = record { counts = i.counts; phase_holds = rw e at i.phase_holds }
Inv-thread i (revive s e) c = record { counts = i.counts; phase_holds = tt }

Reach-Inv : {s : Shared} → Reach IsCareful quiet s → Inv s
Reach-Inv here = record { counts = refl; phase_holds = tt }
Reach-Inv (next r (by_call step) c) = Inv-call (Reach-Inv r) step c
Reach-Inv (next r (by_thread step) c) = Inv-thread (Reach-Inv r) step c
Reach-Inv (next r (ask_reinit s) c) =
    let i = Reach-Inv r in
    record {
      counts = i.counts;
      phase_holds = Holds-map s.phase s _ (λ h. refl) (λ h. (refl, h.1)) i.phase_holds;
    }

phase-gone : (phase : Phase) → has_transport phase ≡ false → phase ≡ gone
phase-gone gone h = refl
phase-gone polling h = absurd (ground (arith, h))
phase-gone stopping h = absurd (ground (arith, h))
phase-gone freeing h = absurd (ground (arith, h))

-- From a quiet server, in every run in which the clients call one after another, and the thread lets itself free the
-- transport only while no call stands between its look at the status and its write to `using_api`:
-- whenever the transport is gone, no call is under way. (The reads and the writes of
-- `using_api` are steps of their own.)
pub no_use_after_free :
    {s : Shared} → Reach IsCareful quiet s → has_transport s.phase ≡ false → s.calls ≡ []
no_use_after_free {s} r h =
    let shut : IsShut s = rw (phase-gone s.phase h) at (Reach-Inv r).phase_holds in shut.1
