-- ===== src/DevInfo/Refine.antt =====
-- server/devinfo_server.c behind its functions: a map from device IDs to nodes, where a publication handle
-- belongs to one device.
pub mod Run
use mathlib.Core.Option
use rmt_library.Common.{
  ℕ, ◌+◌, ◌-◌, ◌≤◌, ◌<◌, ◌^◌, ◌≡◌, ◌≢◌, refl, sym, ◌∙◌, ap, Bool, true, false, if◌then◌else◌, ◌==◌,
  ==_iff, Option, none, some, List, [], ◌∷◌, length, find, All, arith, Bool-cases, Option-cases,
  inl, inr,
}
use rmt_library.Types.{status_agent_error, empty_result, DeviceMsg, TransferStatus, TransferResult}
use rmt_library.DevInfo.{
  Node, Registry, has_id, has_internal_id, fill, add_device, del_device, set_status, get_status,
  status_of, init, deinit,
}
use rmt_library.DevInfo.Ids.{ids, Distinct, find-of-All, ne-of-All, length-write_first}
use rmt_library.DevInfo.Loops.{put_status}
use rmt_library.DevInfo.Inv.{
  IsValid, Op, add, del, del_by_robot, set_to, restart, step, run, init-IsValid, add_device-IsValid,
  del_first-IsValid, set_status-IsValid, deinit-eq-init,
}
use rmt_library.DevInfo.Ops.{add_device_lem}
use rmt_library.DevInfo.Size.{length-add_device, del_first-size, set_status-size}
use rmt_library.DevInfo.Status.{set_status-Marked}
use rmt_library.DevInfo.Lookup.{
  lookup, old_or, lookup-add_device, lookup-del_device, set_status-lookup, get_status-lookup,
}

-- the abstract state
abbrev pub Entries : Type 0
Entries = ℕ → Option Node

-- an entry, unless it has the handle
abbrev pub drop_handle : ℕ → Option Node → Option Node
drop_handle handle none = none
drop_handle handle (some n) = if n.internal_id == handle then none else some n

-- What each state change is to do. (The loss of a robot, which takes the first node whose text holds the robot's
-- ID, is not one of a map.)
abbrev pub changed : Op → Entries → Entries
changed (add fresh msg handle) m id =
    if msg.device_id == id then some (fill msg handle (old_or fresh (m msg.device_id))) else m id
changed (del handle) m id = drop_handle handle (m id)
changed (del_by_robot robot_id) m id = m id
changed (set_to j status result) m id =
    if j == id then Option.map (put_status status result) (m id) else m id
changed restart m id = none

abbrev pub changed_all : List Op → Entries → Entries
changed_all [] m = m
changed_all (op ∷ ops) m = changed_all ops (changed op m)

-- each handle is that of one device only
abbrev pub IsOwned : (ℕ → ℕ) → Op → Type 0
IsOwned owner (add fresh msg handle) = owner handle ≡ msg.device_id
IsOwned owner (del handle) = Unit
IsOwned owner (del_by_robot robot_id) = false ≡ true
IsOwned owner (set_to id status result) = Unit
IsOwned owner restart = Unit

abbrev pub AllOwned : (ℕ → ℕ) → Entries → Type 0
AllOwned owner m = (id : ℕ) (n : Node) → m id ≡ some n → owner n.internal_id ≡ id

pub changed-AllOwned :
    (owner : ℕ → ℕ) (op : Op) (m : Entries)
    → IsOwned owner op
    → AllOwned owner m
    → AllOwned owner (changed op m)
changed-AllOwned owner (add fresh msg handle) m o a id n e = ground (arith, o, a id n, e)
changed-AllOwned owner (del handle) m o a id n e = elim (Option-cases (m id)) [
  | inl f ↦ absurd (ground (arith, e, f))
  | inr (n', f) ↦ ground (arith, a id n' f, e, f)
]
changed-AllOwned owner (del_by_robot robot_id) m o a id n e = absurd (ground (arith, o))
changed-AllOwned owner (set_to j status result) m o a id n e = elim (Option-cases (m id)) [
  | inl f ↦ absurd (ground (arith, e, f))
  | inr (n', f) ↦ ground (arith, a id n' f, e, f)
]
changed-AllOwned owner restart m o a id n e = absurd (ground (arith, e))

-- the node that passes a test is the one under its ID
find-has_id :
    (p : Node → Bool) (nodes : List Node) {n : Node}
    → Distinct (ids nodes)
    → find p nodes ≡ some n
    → (p n ≡ true) × (find (has_id n.info.device_id) nodes ≡ some n)
find-has_id p [] {n} d e = ground arith
find-has_id p (m ∷ rest) {n} d e = elim (Bool-cases (p m)) [
  | inl it ↦ ground (arith, it, e)
  | inr other ↦
      let later : find p rest ≡ some n = ground (arith, other, e) in
      let (passes, at) = find-has_id p rest d.1 later in
      let differs = ne-of-All p m.info.device_id rest d.0 later in
      ground (arith, passes, at, differs)
]

-- a test that none passes
fails_of_none :
    (p q : Node → Bool) (nodes : List Node) {n : Node}
    → find p nodes ≡ none
    → find q nodes ≡ some n
    → p n ≡ false
fails_of_none p q [] {n} e f = ground arith
fails_of_none p q (m ∷ rest) {n} e f = ground (arith, fails_of_none p q rest {n = n}, e, f)

-- The map `m` is what the registry `s` holds.
pub record Represents (owner : ℕ → ℕ) (m : Entries) (s : Registry) : Type 0 where
  pub valid : IsValid s
  pub entry : (id : ℕ) → lookup id s ≡ m id
  pub owned : AllOwned owner m

-- the loss of a publication is a loss of the entry that has its handle
pub del-drop_handle :
    (owner : ℕ → ℕ) (handle id : ℕ) {m : Entries} {s : Registry}
    → Represents owner m s
    → lookup id (del_device handle s) ≡ drop_handle handle (m id)
unfolding lookup
del-drop_handle owner handle id {m} {s} r =
    rw (lookup-del_device handle id r.valid)
      (elim (Option-cases (find (has_internal_id handle) s.dev_head)) [
        | inl e ↦ rw e (elim (Option-cases (m id)) [
          | inl f ↦ ground (arith, f, r.entry id)
          | inr (n, f) ↦ ground (
            arith,
            f,
            r.entry id,
            fails_of_none (has_internal_id handle) (has_id id) s.dev_head e (r.entry id ∙ f),
          )
        ])
        | inr (n, e) ↦
            let (has, at) = find-has_id (has_internal_id handle) s.dev_head r.valid.distinct e in
            let mine = r.owned n.info.device_id n (sym (r.entry n.info.device_id) ∙ at) in
            rw e (elim (Option-cases (m id)) [
              | inl f ↦ ground (arith, f, r.entry id)
              | inr (n', f) ↦ ground (arith, f, r.entry id, r.owned id n' f, mine, has, at, e)
            ])
      ])
