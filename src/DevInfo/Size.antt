-- ===== src/DevInfo/Size.antt =====
-- How many devices the registry of server/devinfo_server.c holds behind an operation that finds them.
use mathlib.Core.Path.{subst}
use rmt_library.Common.{
  ℕ, zero, suc, ◌+◌, ◌≤◌, ◌≡◌, Bool, some, List, [], ◌∷◌, length, ℤ, arith, Option-cases, Bytes,
  find, Bool-cases, inl, inr,
}
use rmt_library.Types.{DeviceMsg, TransferStatus, TransferResult}
use rmt_library.Transport.{Taken}
use rmt_library.Transport.Listen.{
  callback_liveliness_changed, callback_publication_matched, callback_subscription_matched,
  callback_data_available,
}
use rmt_library.DevInfo.Ids.{length-remove_first, length-write_first}
use rmt_library.DevInfo.Ops.{add_device_lem, del_first_lem}
use rmt_library.DevInfo.Inv.{IsValid, run-IsValid}
use rmt_library.DevInfo.Lost.{
  Event, liveliness, subscription, publication, qos_event, hear, hear-run, deletions,
}
use rmt_library.DevInfo.{
  Node, contains, del_first, del_robot, Registry, has_id, set_loop, set_status, has_internal_id,
  del_device, add_device, fill,
}

-- an arrival adds one device at most
pub length-add_device :
    (fresh : Node) (msg : DeviceMsg) (handle : ℕ) (r : Registry)
    → length (add_device fresh msg handle r).dev_head ≤ length r.dev_head + 1
length-add_device fresh msg handle r = ground (
  arith,
  add_device_lem fresh msg handle r,
  length-write_first (has_id msg.device_id) (fill msg handle) r.dev_head,
)

set_loop-size :
    (id : ℕ) (status : TransferStatus) (result : TransferResult) (i : ℕ) (nodes : List Node)
    {r : Bool × List Node}
    → set_loop id status result i nodes ≡ some r
    → length r.1 ≡ length nodes
unfolding set_loop
set_loop-size id status result zero nodes e = ground (arith, e)
set_loop-size id status result (suc i) [] e = absurd (ground (arith, e))
set_loop-size id status result (suc i) (n ∷ rest) e = elim (Bool-cases (has_id id n)) [
  | inl it ↦ ground (arith, e, it)
  | inr other ↦ elim (Option-cases (set_loop id status result i rest)) [
    | inl fault ↦ absurd (ground (arith, e, other, fault))
    | inr (r, f) ↦ ground (arith, e, other, f, set_loop-size id status result i rest f)
  ]
]

pub set_status-size :
    (id : ℕ) (status : TransferStatus) (result : TransferResult) (s : Registry) {r : ℤ × Registry}
    → set_status id status result s ≡ some r
    → length r.1.dev_head ≡ length s.dev_head
unfolding set_status
set_status-size id status result s e =
    elim (Option-cases (set_loop id status result s.dev_num s.dev_head)) [
      | inl fault ↦ absurd (ground (arith, e, fault))
      | inr (r, f) ↦ ground (arith, e, f, set_loop-size id status result s.dev_num s.dev_head f)
    ]

pub del_first-size :
    (p : Node → Bool) (s : Registry) → length (del_first p s).dev_head ≤ length s.dev_head
del_first-size p s = elim (Option-cases (find p s.dev_head)) [
  | inl gone ↦ ground (arith, del_first_lem p s, gone)
  | inr (n, e) ↦ ground (arith, del_first_lem p s, e, length-remove_first p s.dev_head e)
]

hear_robots-size :
    (takes : List (Taken Bytes)) (s : Registry)
    → length (callback_data_available (some del_robot) takes s).dev_head ≤ length s.dev_head
unfolding callback_data_available del_robot
hear_robots-size [] s = omega arith
hear_robots-size (t ∷ takes) s = ground (
  arith,
  del_first-size (λ n. contains t.sample n.info.devinfo) s,
  hear_robots-size takes (del_first (λ n. contains t.sample n.info.devinfo) s),
)

-- what a listener hears adds no device
pub hear-size : (e : Event) (s : Registry) → length (hear e s).dev_head ≤ length s.dev_head
unfolding hear callback_liveliness_changed callback_subscription_matched
    callback_publication_matched del_device
hear-size (liveliness status) s =
    ground (arith, del_first-size (has_internal_id status.last_publication_handle) s)
hear-size (subscription status) s =
    ground (arith, del_first-size (has_internal_id status.last_publication_handle) s)
hear-size (publication status) s = omega arith
hear-size (qos_event takes) s = hear_robots-size takes s

pub hear-IsValid : (e : Event) {s : Registry} → IsValid s → IsValid (hear e s)
hear-IsValid e {s} v =
    let (s', f, v') = run-IsValid (deletions e) v in
    let same : s' ≡ hear e s = cc (f, hear-run e s) in subst IsValid same v'
