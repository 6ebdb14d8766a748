-- ===== src/DevInfo/Lost.antt =====
-- The listeners of common/dds_transport.c with the callbacks of server/devinfo_server.c: which devices the
-- server forgets.
use native.Mathlib.Decide.{ℕ_discrete}
use rmt_library.Common.{
  ℕ, ◌≡◌, ◌≢◌, ◌∙◌, refl, true, false, if◌then◌else◌, ◌==◌, none, some, List, [], ◌∷◌, Bytes, All,
  arith, find, Bool-cases, inl, inr, is_neg, ==_refl,
}
use rmt_library.Types.{DeviceMsg}
use rmt_library.Transport.{Taken}
use rmt_library.Transport.Receive.{samples}
use rmt_library.Transport.Listen.{
  Liveliness, Subscription, Publication, callback_liveliness_changed, callback_publication_matched,
  callback_subscription_matched, callback_data_available,
}
use rmt_library.DevInfo.{
  Node, Registry, has_id, has_internal_id, fill, add_device, del_device, del_robot,
}
use rmt_library.DevInfo.Ids.{any, write_first}
use rmt_library.DevInfo.Ops.{add_device_lem}
use rmt_library.DevInfo.Inv.{IsValid, add_device-IsValid, Op, del, del_by_robot, run, step}
use rmt_library.DevInfo.Lookup.{lookup, lookup-add_device, lookup-del_device}

-- an event that a listener of the server hears, with the callbacks that the server has set
pub data Event : Type 0 where
  liveliness : Liveliness → Event
  subscription : Subscription → Event
  publication : Publication → Event
  qos_event : List (Taken Bytes) → Event

unfoldable pub hear : Event → Registry → Registry
unfolding callback_liveliness_changed callback_subscription_matched callback_publication_matched
    callback_data_available
hear (liveliness status) = callback_liveliness_changed (some del_device) status
hear (subscription status) = callback_subscription_matched (some del_device) status
hear (publication status) = callback_publication_matched status
hear (qos_event takes) = callback_data_available (some del_robot) takes

-- the deletions that some samples, and an event, come to
abbrev pub robots : List (Taken Bytes) → List Op
robots [] = []
robots (t ∷ takes) = del_by_robot t.sample ∷ robots takes

abbrev pub deletions : Event → List Op
deletions (liveliness status) =
    if status.not_alive_count == 0 then [] else del status.last_publication_handle ∷ []
deletions (subscription status) =
    if is_neg status.current_count_change then del status.last_publication_handle ∷ [] else []
deletions (publication status) = []
deletions (qos_event takes) = robots (samples takes)

run-robots :
    (takes : List (Taken Bytes)) (s : Registry)
    → run (robots (samples takes)) s ≡ some (callback_data_available (some del_robot) takes s)
unfolding callback_data_available run step
run-robots [] s = refl
run-robots (t ∷ takes) s = ground (arith, run-robots takes (del_robot t.sample s))

-- Whatever a listener hears comes to deletions from the registry, in order: of the handle of the last publication, if
-- a publication is not alive or a reader has lost one; of each robot ID that can be read before the
-- first answer without a sample; and of nothing where only a writer is matched.
pub hear-run : (e : Event) (s : Registry) → run (deletions e) s ≡ some (hear e s)
unfolding hear run step callback_liveliness_changed callback_subscription_matched
    callback_publication_matched
hear-run (liveliness status) s = ground arith
hear-run (subscription status) s = ground arith
hear-run (publication status) s = refl
hear-run (qos_event takes) s = run-robots takes s

-- the node that a message has just written is the one of its handle
find-own_handle :
    (msg : DeviceMsg) (handle : ℕ) (nodes : List Node)
    → All (λ n. n.internal_id ≡ handle → n.info.device_id ≡ msg.device_id) nodes
    → any (has_id msg.device_id) nodes ≡ true
    → (n : Node) × (find
          (has_internal_id handle)
          (write_first (has_id msg.device_id) (fill msg handle) nodes)
        ≡ some n)
      × (n.info.device_id ≡ msg.device_id)
find-own_handle msg handle [] h k = absurd (ground (arith, k))
find-own_handle msg handle (n ∷ rest) h k = elim (ℕ_discrete n.info.device_id msg.device_id) [
  | yes e ↦ (fill msg handle n, ground (arith, e), refl)
  | no e ↦
      let (m, f, same) = find-own_handle msg handle rest h.1 (ground (arith, e, k)) in
      (m, ground (arith, e, h.0, f), same)
]

find-registered :
    (fresh : Node) (msg : DeviceMsg) (handle : ℕ) (s : Registry)
    → All (λ n. n.internal_id ≡ handle → n.info.device_id ≡ msg.device_id) s.dev_head
    → (n : Node) × (find (has_internal_id handle) (add_device fresh msg handle s).dev_head ≡ some n)
      × (n.info.device_id ≡ msg.device_id)
find-registered fresh msg handle s h =
    rw (add_device_lem fresh msg handle s)
      (elim (Bool-cases (any (has_id msg.device_id) s.dev_head)) [
        | inl known ↦ rw known (find-own_handle msg handle s.dev_head h known)
        | inr new ↦ rw new (fill msg handle fresh, rw (==_refl handle) refl, refl)
      ])

forgotten :
    (fresh : Node) (msg : DeviceMsg) (handle j : ℕ) {s : Registry}
    → IsValid s
    → All (λ n. n.internal_id ≡ handle → n.info.device_id ≡ msg.device_id) s.dev_head
    → lookup j (del_device handle (add_device fresh msg handle s))
      ≡ (if msg.device_id == j then none else lookup j s)
forgotten fresh msg handle j {s} v h =
    let (n, f, same) = find-registered fresh msg handle s h in
    lookup-del_device handle j (add_device-IsValid fresh msg handle v)
    ∙ rw (f, same, lookup-add_device fresh msg handle j s)
        (elim (Bool-cases (msg.device_id == j)) [ inl e ↦ rw e refl | inr e ↦ rw e refl ])

-- A device whose message has arrived in a valid registry, under a handle that no other device has, is forgotten, and
-- no other device is, when a listener hears of that handle: that the subscription has lost it, or
-- any change of liveliness while some publication is not alive. (The count that the code tests is
-- of all dead publications, so that a device which is alive again is forgotten too.)
pub registered_lost :
    (fresh : Node) (msg : DeviceMsg) (j : ℕ) (status : Liveliness) (gone : Subscription)
    {s : Registry}
    → IsValid s
    → All
        (λ n. n.internal_id ≡ status.last_publication_handle → n.info.device_id ≡ msg.device_id)
        s.dev_head
    → gone.last_publication_handle ≡ status.last_publication_handle
    → status.not_alive_count ≢ 0
    → is_neg gone.current_count_change ≡ true
    → (lookup j (hear (liveliness status) (add_device fresh msg status.last_publication_handle s))
        ≡ (if msg.device_id == j then none else lookup j s))
      × (lookup j (hear (subscription gone) (add_device fresh msg status.last_publication_handle s))
          ≡ (if msg.device_id == j then none else lookup j s))
unfolding hear callback_liveliness_changed callback_subscription_matched
registered_lost fresh msg j status gone {s} v h same dead fewer =
    let lost = forgotten fresh msg status.last_publication_handle j v h in
    let some_dead : (status.not_alive_count == 0) ≡ false = ground (arith, dead) in
    (rw some_dead lost, rw (fewer, same) lost)
