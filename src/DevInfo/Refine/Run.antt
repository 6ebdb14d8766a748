-- ===== src/DevInfo/Refine/Run.antt =====
-- The state changes of server/devinfo_server.c, one by one and in any sequence, as changes of a map.
use rmt_library.Common.{
  ℕ, ◌+◌, ◌-◌, ◌≤◌, ◌<◌, ◌^◌, ◌≡◌, refl, ◌∙◌, Option, none, some, List, [], ◌∷◌, length, All, arith,
}
use rmt_library.Types.{status_agent_error, empty_result}
use rmt_library.DevInfo.{Node, Registry, has_internal_id, del_device, get_status, status_of, init}
use rmt_library.DevInfo.Inv.{
  Op, add, del, del_by_robot, set_to, restart, step, run, init-IsValid, add_device-IsValid,
  del_first-IsValid, deinit-eq-init,
}
use rmt_library.DevInfo.Size.{length-add_device, del_first-size, set_status-size}
use rmt_library.DevInfo.Status.{set_status-Marked}
use rmt_library.DevInfo.Lookup.{lookup, lookup-add_device, get_status-lookup}
use rmt_library.DevInfo.Refine.{
  Entries, changed, changed_all, IsOwned, changed-AllOwned, Represents, del-drop_handle,
}

empty-Represents : (owner : ℕ → ℕ) → Represents owner (λ id. none) init
unfolding lookup init
empty-Represents owner = record {
  valid = init-IsValid;
  entry = λ id. refl;
  owned = λ id n e. absurd (ground (arith, e));
}

status_of_lem :
    (o : Option Node)
    → some (elim o [
      | none ↦ (status_agent_error, empty_result)
      | some n ↦ (n.agent_transfer_status, n.transfer_result)
    ])
      ≡ some (status_of o)
status_of_lem none = refl
status_of_lem (some n) = refl

-- behind a state change the registry holds the changed map, and one device more at most
step-Represents :
    (owner : ℕ → ℕ) (op : Op) {m : Entries} {s : Registry}
    → IsOwned owner op
    → length s.dev_head < 2 ^ 32
    → Represents owner m s
    → (s' : Registry) × (step op s ≡ some s')
      × Represents owner (changed op m) s'
      × (length s'.dev_head ≤ length s.dev_head + 1)
unfolding step del_device init
step-Represents owner (add fresh msg handle) {m} {s} o few r = (
  _,
  refl,
  record {
    valid = add_device-IsValid fresh msg handle r.valid;
    entry = λ id.
        ground (arith, lookup-add_device fresh msg handle id s, r.entry id, r.entry msg.device_id);
    owned = changed-AllOwned owner (add fresh msg handle) m o r.owned;
  },
  length-add_device fresh msg handle s,
)
step-Represents owner (del handle) {m} {s} o few r = (
  _,
  refl,
  record {
    valid = del_first-IsValid (has_internal_id handle) r.valid;
    entry = λ id. del-drop_handle owner handle id r;
    owned = changed-AllOwned owner (del handle) m o r.owned;
  },
  omega (arith, del_first-size (has_internal_id handle) s),
)
step-Represents owner (del_by_robot robot_id) {m} {s} o few r = absurd (ground (arith, o))
step-Represents owner (set_to id status result) {m} {s} o few r =
    let (s', e, k) = set_status-Marked id status result (record { valid = r.valid; fits = few }) in
    (
      s',
      rw e refl,
      record {
        valid = k.good.valid;
        entry = λ j. ground (arith, k.entry j, r.entry j);
        owned = changed-AllOwned owner (set_to id status result) m o r.owned;
      },
      omega (arith, set_status-size id status result s e),
    )
step-Represents owner restart {m} {s} o few r = (
  _,
  refl,
  rw (deinit-eq-init r.valid) (empty-Represents owner),
  rw (deinit-eq-init r.valid) (omega arith),
)

run-Represents :
    (owner : ℕ → ℕ) (ops : List Op) {m : Entries} {s : Registry}
    → All (IsOwned owner) ops
    → length s.dev_head + length ops ≤ 2 ^ 32 - 1
    → Represents owner m s
    → (s' : Registry) × (run ops s ≡ some s')
      × Represents owner (changed_all ops m) s'
      × (length s'.dev_head < 2 ^ 32)
unfolding run
run-Represents owner [] {m} {s} o few r = (s, refl, r, omega (arith, few))
run-Represents owner (op ∷ ops) {m} {s} o few r =
    let (s₁, e₁, r₁, n) = step-Represents owner op o.0 (omega (arith, few)) r in
    let (s₂, e₂, r₂, n₂) = run-Represents owner ops o.1 (omega (arith, few, n)) r₁ in
    (s₂, rw (e₁, run) e₂, r₂, n₂)

within : (ops : List Op) → length ops < 2 ^ 32 → length init.dev_head + length ops ≤ 2 ^ 32 - 1
unfolding init
within ops few = omega (arith, few)

-- The registry is a map. Where each publication handle is that of one device, any sequence of fewer than 2^32
-- arrivals, lost publications, status changes and restarts, from the state that
-- `devinfo_server_init` makes, follows no null pointer and ends with exactly the entries that
-- a map from IDs to nodes has, to which an arrival adds or overwrites the entry of its ID, a lost publication
-- drops the entry with its handle, a status change writes to the entry of its ID, and a
-- restart drops all; and the status that is then answered for an ID is that of the map.
pub run-refines :
    (owner : ℕ → ℕ) (ops : List Op)
    → All (IsOwned owner) ops
    → length ops < 2 ^ 32
    → (s : Registry) × (run ops init ≡ some s)
      × ((id : ℕ) → lookup id s ≡ changed_all ops (λ j. none) id)
      × ((id : ℕ) → get_status id s ≡ some (status_of (changed_all ops (λ j. none) id)))
run-refines owner ops o few =
    let few' : length init.dev_head + length ops ≤ 2 ^ 32 - 1 = within ops few in
    let (s, e, r, n) = run-Represents owner ops o few' (empty-Represents owner) in
    (
      s,
      e,
      r.entry,
      λ id.
          get_status-lookup id r.valid n
          ∙ rw (r.entry id) (status_of_lem (changed_all ops (λ j. none) id)),
    )
