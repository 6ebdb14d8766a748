-- ===== src/DevInfo/Order.antt =====
-- The list of server/devinfo_server.c up to its order: the devices may be heard of in any order.
use mathlib.Core.List.{Perm, Permᴰ}
use mathlib.Core.List.Perm
use mathlib.Core.List.Permᴰ
use mathlib.Core.Logic.{∥∥₁_map}
use mathlib.Core.Path.{subst}
use mathlib.Mathlib.Data.Multiset.Defs.{Multiset, of_list}
use rmt_library.Common.{
  ℕ, ◌+◌, ◌≤◌, ◌≡◌, ◌≢◌, refl, sym, ◌∙◌, ap, Bool, ◌==◌, Option, none, some, List, [], ◌∷◌, length,
  map, find, All, arith, Bool-cases, inl, inr,
}
use rmt_library.Types.{DeviceMsg}
use rmt_library.DevInfo.{Node, Registry, has_id, fill, add_device}
use rmt_library.DevInfo.Ids.{
  ids, Distinct, remove_first, find-of-All, Distinct-remove_first, find-remove_first,
}
use rmt_library.DevInfo.Loops.{infos}
use rmt_library.DevInfo.Size.{length-add_device}
use rmt_library.DevInfo.Inv.{IsValid, add_device-IsValid}
use rmt_library.DevInfo.Lookup.{lookup, old_or, lookup-add_device}

-- a message, its handle, and what `malloc` gives if it needs a node
pub record Arrival : Type 0 where
  pub fresh : Node
  pub msg : DeviceMsg
  pub handle : ℕ

abbrev pub arrive : List Arrival → Registry → Registry
arrive [] s = s
arrive (a ∷ heard) s = arrive heard (add_device a.fresh a.msg a.handle s)

abbrev pub is_of : ℕ → Arrival → Bool
is_of id a = a.msg.device_id == id

abbrev pub senders : List Arrival → List ℕ
senders = map (λ (a : Arrival). a.msg.device_id)

pub arrive-IsValid : (heard : List Arrival) {s : Registry} → IsValid s → IsValid (arrive heard s)
arrive-IsValid [] v = v
arrive-IsValid (a ∷ heard) v = arrive-IsValid heard (add_device-IsValid a.fresh a.msg a.handle v)

-- nobody of another ID has sent it
find-senders :
    (id : ℕ) (heard : List Arrival)
    → All (λ y. y ≢ id) (senders heard)
    → find (is_of id) heard ≡ none
find-senders id [] h = refl
find-senders id (a ∷ heard) h = ground (arith, find-senders id heard h.1)

-- the entry of an ID behind some arrivals
abbrev entry_behind : Option Arrival → Option Node → Option Node
entry_behind none o = o
entry_behind (some a) o = some (fill a.msg a.handle (old_or a.fresh o))

lookup-arrive :
    (heard : List Arrival) (id : ℕ) (s : Registry)
    → Distinct (senders heard)
    → lookup id (arrive heard s) ≡ entry_behind (find (is_of id) heard) (lookup id s)
lookup-arrive [] id s d = refl
lookup-arrive (a ∷ heard) id s d =
    let later = lookup-arrive heard id (add_device a.fresh a.msg a.handle s) d.1 in
    let now = lookup-add_device a.fresh a.msg a.handle id s in
    elim (Bool-cases (is_of id a)) [
      | inl mine ↦ ground (arith, mine, later, now, find-senders a.msg.device_id heard d.0)
      | inr other ↦ ground (arith, other, later, now)
    ]

-- where no ID stands twice, the order of the arrivals does not show in what is found under an ID
All-senders :
    (k : ℕ) {xs ys : List Arrival}
    → Permᴰ xs ys
    → All (λ y. y ≢ k) (senders xs)
    → All (λ y. y ≢ k) (senders ys)
All-senders k Permᴰ.nil h = tt
All-senders k (Permᴰ.cons e p) h =
    (subst (λ (a : Arrival). a.msg.device_id ≢ k) e h.0, All-senders k p h.1)
All-senders k (Permᴰ.swap e f) h = (
  subst (λ (a : Arrival). a.msg.device_id ≢ k) f h.1.0,
  (subst (λ (a : Arrival). a.msg.device_id ≢ k) e h.0, h.1.1),
)
All-senders k (Permᴰ.trans p q) h = All-senders k q (All-senders k p h)

-- the two lists name each sender once, and hold the same message of each
abbrev Agrees : List Arrival → List Arrival → Type 0
Agrees xs ys = Distinct (senders ys) × ((id : ℕ) → find (is_of id) xs ≡ find (is_of id) ys)

Agrees-swap :
    (a b : Arrival) (l : List Arrival)
    → Distinct (senders (a ∷ b ∷ l))
    → Agrees (a ∷ b ∷ l) (b ∷ a ∷ l)
Agrees-swap a b l d = (((λ e. d.0.0 (sym e), d.1.0), (d.0.1, d.1.1)), λ id. ground (arith, d.0.0))

Agrees-Perm : {xs ys : List Arrival} → Permᴰ xs ys → Distinct (senders xs) → Agrees xs ys
Agrees-Perm Permᴰ.nil d = (tt, λ id. refl)
Agrees-Perm (Permᴰ.cons {a = a} {l₁ = l₁} {l₂ = l₂} e p) d =
    let (c, same) = Agrees-Perm p d.1 in
    subst (λ b. Agrees (a ∷ l₁) (b ∷ l₂)) e
      ((All-senders a.msg.device_id p d.0, c), λ id. ground (arith, same id))
Agrees-Perm (Permᴰ.swap {a = a} {b = b} {a' = a'} {l = l} e f) d =
    subst (λ b'. Agrees (a ∷ b ∷ l) (a' ∷ b' ∷ l)) e
      (subst (λ a'. Agrees (a ∷ b ∷ l) (a' ∷ a ∷ l)) f (Agrees-swap a b l d))
Agrees-Perm (Permᴰ.trans p q) d =
    let (c, same) = Agrees-Perm p d in
    let (c', same') = Agrees-Perm q c in (c', λ id. same id ∙ same' id)

-- lists of nodes under the same IDs
pull :
    (n : Node) (nodes : List Node)
    → find (has_id n.info.device_id) nodes ≡ some n
    → Permᴰ (n ∷ remove_first (has_id n.info.device_id) nodes) nodes
pull n [] e = absurd (ground (arith, e))
pull n (m ∷ rest) e = elim (Bool-cases (has_id n.info.device_id m)) [
  | inl it ↦ rw it (Permᴰ.cons (ground (arith, it, e)) (Permᴰ.refl rest))
  | inr other ↦ rw other (
      Permᴰ.trans (Permᴰ.swap refl refl) (Permᴰ.cons refl (pull n rest (ground (arith, other, e)))))
]

-- two lists under the same entries, in which no ID stands twice
lookup_ext :
    (xs ys : List Node)
    → Distinct (ids xs)
    → Distinct (ids ys)
    → ((id : ℕ) → find (has_id id) xs ≡ find (has_id id) ys)
    → Permᴰ xs ys
lookup_ext [] [] d c same = Permᴰ.nil
lookup_ext [] (y ∷ ys) d c same = absurd (ground (arith, same y.info.device_id))
lookup_ext (x ∷ xs) ys d c same =
    let id = x.info.device_id in
    let there : find (has_id id) ys ≡ some x = sym (same id) ∙ ground arith in
    Permᴰ.trans
      (Permᴰ.cons refl (
        lookup_ext xs (remove_first (has_id id) ys) d.1 (Distinct-remove_first (has_id id) ys c)
          (λ j.
            rw (find-remove_first (has_id id) j ys c there)
              (ground (arith, same j, find-of-All id xs d.0)))))
      (pull x ys there)

-- The devices without their order.
abbrev pub devices : Registry → Multiset Node
devices s = of_list s.dev_head

-- Arrivals from different devices come to the same devices in any order.
pub arrive-Perm :
    {xs ys : List Arrival} {s : Registry}
    → Perm xs ys
    → Distinct (senders xs)
    → IsValid s
    → Perm (arrive xs s).dev_head (arrive ys s).dev_head
unfolding lookup
arrive-Perm {xs} {ys} {s} p d v = ∥∥₁_map p (λ q.
    let (c, same) = Agrees-Perm q d in
    lookup_ext (arrive xs s).dev_head (arrive ys s).dev_head (arrive-IsValid xs v).distinct
      (arrive-IsValid ys v).distinct
      (λ id.
        lookup-arrive xs id s d
        ∙ ap (λ a. entry_behind a (lookup id s)) (same id)
        ∙ sym (lookup-arrive ys id s c)))

pub length-arrive :
    (heard : List Arrival) (s : Registry)
    → length (arrive heard s).dev_head ≤ length s.dev_head + length heard
length-arrive [] s = omega arith
length-arrive (a ∷ heard) s = omega (
  arith,
  length-add_device a.fresh a.msg a.handle s,
  length-arrive heard (add_device a.fresh a.msg a.handle s),
)

infos-map : (nodes : List Node) → infos nodes ≡ map (λ (n : Node). n.info) nodes
infos-map [] = refl
infos-map (n ∷ rest) = ap (λ l. n.info ∷ l) (infos-map rest)

pub infos-Perm : {xs ys : List Node} → Perm xs ys → Perm (infos xs) (infos ys)
infos-Perm {xs} {ys} p = rw (infos-map xs, infos-map ys) (Perm.map (λ (n : Node). n.info) p)
