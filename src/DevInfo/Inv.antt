-- ===== src/DevInfo/Inv.antt =====
-- The invariant of server/devinfo_server.c over every sequence of its state changes.
use mathlib.Core.Option
use rmt_library.Common.{
  ℕ, ◌+◌, ◌%◌, ◌^◌, ◌≤◌, ◌≡◌, refl, Bool, Option, none, some, List, [], ◌∷◌, ◌++◌, Bytes, arith,
  length, take, drop, find, Bool-cases, Option-cases, inl, inr, take-append-drop, sym, ◌∙◌, ℤ, ap,
  length-append,
}
use rmt_library.Types.{DeviceMsg, TransferStatus, TransferResult}
use rmt_library.DevInfo.{
  Node, Registry, has_id, has_internal_id, contains, fill, decr32, add_device, del_first,
  del_device, del_robot, free_all, deinit, init, set_status,
}
use rmt_library.DevInfo.Ids.{
  ids, Distinct, any, write_first, length-write_first, length-remove_first, ids-write_first,
  ids-append, All-of-any, Distinct-remove_first,
}
use rmt_library.DevInfo.Loops.{put_status}
use rmt_library.DevInfo.Ops.{add_device_lem, del_first_lem, set_status_lem}

-- No ID is listed twice, and the `uint32_t` counter is the length of the list, as far as it goes.
pub record IsValid (s : Registry) : Type 0 where
  pub distinct : Distinct (ids s.dev_head)
  pub counted : s.dev_num ≡ length s.dev_head % 2 ^ 32

pub init-IsValid : IsValid init
unfolding init
init-IsValid = record { distinct = tt; counted = refl }

pub add_device-IsValid :
    (fresh : Node) (msg : DeviceMsg) (handle : ℕ) {s : Registry}
    → IsValid s
    → IsValid (add_device fresh msg handle s)
add_device-IsValid fresh msg handle {s} v =
    rw add_device_lem (elim (Bool-cases (any (has_id msg.device_id) s.dev_head)) [
      | inl old ↦ rw old (record {
        distinct =
            rw
              (ids-write_first (has_id msg.device_id) (fill msg handle) s.dev_head
                (λ n e. ground arith))
              v.distinct;
        counted =
            rw (length-write_first (has_id msg.device_id) (fill msg handle) s.dev_head) v.counted;
      })
      | inr new ↦ rw new (record {
        distinct = (All-of-any msg.device_id s.dev_head new, v.distinct);
        counted = omega (arith, v.counted);
      })
    ])

pub del_first-IsValid : (p : Node → Bool) {s : Registry} → IsValid s → IsValid (del_first p s)
del_first-IsValid p {s} v = rw del_first_lem (elim (Option-cases (find p s.dev_head)) [
  | inl e ↦ rw e v
  | inr (n, e) ↦ rw e (record {
    distinct = Distinct-remove_first p s.dev_head v.distinct;
    counted = omega (arith, v.counted, length-remove_first p s.dev_head e);
  })
])

-- The counter never runs past the list.
pub num-le-length : {s : Registry} → IsValid s → s.dev_num ≤ length s.dev_head
num-le-length v = omega (arith, v.counted)

-- A write of the status through the first `i` nodes leaves the IDs and the length.
ids-put_status :
    (id : ℕ) (status : TransferStatus) (result : TransferResult) (i : ℕ) (nodes : List Node)
    → ids (write_first (has_id id) (put_status status result) (take i nodes) ++ drop i nodes)
      ≡ ids nodes
ids-put_status id status result i nodes =
    ids-append (write_first (has_id id) (put_status status result) (take i nodes)) (drop i nodes)
    ∙ ap (λ xs. xs ++ ids (drop i nodes))
        (ids-write_first (has_id id) (put_status status result) (take i nodes) (λ n e. refl))
    ∙ sym (ids-append (take i nodes) (drop i nodes))
    ∙ ap ids (take-append-drop i nodes)

length-put_status :
    (id : ℕ) (status : TransferStatus) (result : TransferResult) (i : ℕ) (nodes : List Node)
    → length (write_first (has_id id) (put_status status result) (take i nodes) ++ drop i nodes)
      ≡ length nodes
length-put_status id status result i nodes =
    length-append (write_first (has_id id) (put_status status result) (take i nodes)) (drop i nodes)
    ∙ ap (λ k. k + length (drop i nodes))
        (length-write_first (has_id id) (put_status status result) (take i nodes))
    ∙ sym (length-append (take i nodes) (drop i nodes))
    ∙ ap length (take-append-drop i nodes)

pub set_status-IsValid :
    (id : ℕ) (status : TransferStatus) (result : TransferResult) {s : Registry}
    → IsValid s
    → (code : ℤ) × (s' : Registry) × (set_status id status result s ≡ some (code, s'))
      × IsValid s'
      × (length s'.dev_head ≡ length s.dev_head)
set_status-IsValid id status result {s} v = (
  _,
  _,
  set_status_lem id status result s (num-le-length v),
  record {
    distinct = rw (ids-put_status id status result s.dev_num s.dev_head) v.distinct;
    counted = rw (length-put_status id status result s.dev_num s.dev_head) v.counted;
  },
  length-put_status id status result s.dev_num s.dev_head,
)

free_all-init :
    (nodes : List Node) (num : ℕ) → num ≡ length nodes % 2 ^ 32 → free_all nodes num ≡ init
unfolding free_all init
free_all-init [] num h = ground arith
free_all-init (n ∷ rest) num h = free_all-init rest (decr32 num) (omega arith)

-- From a valid registry `devinfo_server_deinit` comes back to the state of `devinfo_server_init`: the
-- list is empty, and the counter, which is lowered once for each device, is 0 again.
pub deinit-eq-init : {s : Registry} → IsValid s → deinit s ≡ init
unfolding deinit
deinit-eq-init {s} v = free_all-init s.dev_head s.dev_num v.counted

-- What the rest of the server does to the registry: a message of an agent, a lost publication, a
-- lost robot, the status of a transfer, and a restart.
pub data Op : Type 0 where
  add : Node → DeviceMsg → ℕ → Op
  del : ℕ → Op
  del_by_robot : Bytes → Op
  set_to : ℕ → TransferStatus → TransferResult → Op
  restart : Op

unfoldable pub step : Op → Registry → Option Registry
step (add fresh msg handle) s = some (add_device fresh msg handle s)
step (del internal_id) s = some (del_device internal_id s)
step (del_by_robot robot_id) s = some (del_robot robot_id s)
step (set_to id status result) s = Option.map (λ r. r.1) (set_status id status result s)
step restart s = some (deinit s)

unfoldable pub run : List Op → Registry → Option Registry
run [] s = some s
run (op ∷ ops) s = elim (step op s) [ none ↦ none | some s' ↦ run ops s' ]

pub step-IsValid :
    (op : Op) {s : Registry} → IsValid s → (s' : Registry) × (step op s ≡ some s') × IsValid s'
unfolding step del_device del_robot
step-IsValid (add fresh msg handle) v = (_, refl, add_device-IsValid fresh msg handle v)
step-IsValid (del internal_id) v = (_, refl, del_first-IsValid (has_internal_id internal_id) v)
step-IsValid (del_by_robot robot_id) v =
    (_, refl, del_first-IsValid (λ n. contains robot_id n.info.devinfo) v)
step-IsValid (set_to id status result) v =
    let (code, s', e, v', l) = set_status-IsValid id status result v in (s', rw e, v')
step-IsValid restart v = (_, refl, rw (deinit-eq-init v) init-IsValid)

-- From a valid registry, such as the one that `devinfo_server_init` makes, no sequence of arrivals,
-- losses, status changes and restarts follows a null pointer, and each ends in a valid registry: no
-- device ID is listed twice, and `g_dev_num` is the number of devices modulo 2^32.
pub run-IsValid :
    (ops : List Op) {s : Registry}
    → IsValid s
    → (s' : Registry) × (run ops s ≡ some s') × IsValid s'
unfolding run
run-IsValid [] {s} v = (s, refl, v)
run-IsValid (op ∷ ops) v =
    let (s₁, e₁, v₁) = step-IsValid op v in
    let (s₂, e₂, v₂) = run-IsValid ops v₁ in (s₂, rw (e₁, run) e₂, v₂)
