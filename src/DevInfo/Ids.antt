-- ===== src/DevInfo/Ids.antt =====
-- The list of server/devinfo_server.c as a container: the first node that passes a test is found,
-- written or removed, and what that does to the device IDs.
use mathlib.Core.Option
use rmt_library.Common.{
  ℕ, suc, ◌≡◌, ◌≢◌, refl, ap, Bool, true, false, if◌then◌else◌, none, some, List, [], ◌∷◌, ◌++◌,
  arith, length, All, find, ◌==◌,
}
use rmt_library.DevInfo.{Node, has_id}

abbrev pub ids : List Node → List ℕ
ids [] = []
ids (n ∷ rest) = n.info.device_id ∷ ids rest

-- No two entries of a list of numbers are equal.
abbrev pub Distinct : List ℕ → Type 0
Distinct [] = Unit
Distinct (x ∷ xs) = All (λ y. y ≢ x) xs × Distinct xs

abbrev pub any : (Node → Bool) → List Node → Bool
any p [] = false
any p (n ∷ rest) = if p n then true else any p rest

abbrev pub write_first : (Node → Bool) → (Node → Node) → List Node → List Node
write_first p f [] = []
write_first p f (n ∷ rest) = if p n then f n ∷ rest else n ∷ write_first p f rest

abbrev pub remove_first : (Node → Bool) → List Node → List Node
remove_first p [] = []
remove_first p (n ∷ rest) = if p n then rest else n ∷ remove_first p rest

pub length-write_first :
    (p : Node → Bool) (f : Node → Node) (nodes : List Node)
    → length (write_first p f nodes) ≡ length nodes
length-write_first p f [] = refl
length-write_first p f (n ∷ rest) = ground (arith, length-write_first p f rest)

pub length-remove_first :
    (p : Node → Bool) (nodes : List Node) {n : Node}
    → find p nodes ≡ some n
    → suc (length (remove_first p nodes)) ≡ length nodes
length-remove_first p [] h = ground arith
length-remove_first p (m ∷ rest) {n} h = ground (arith, length-remove_first p rest {n = n})

-- A write that leaves the IDs of nodes alone leaves those of the list alone.
pub ids-write_first :
    (p : Node → Bool) (f : Node → Node) (nodes : List Node)
    → ((n : Node) → p n ≡ true → (f n).info.device_id ≡ n.info.device_id)
    → ids (write_first p f nodes) ≡ ids nodes
ids-write_first p f [] keep = refl
ids-write_first p f (n ∷ rest) keep = ground (arith, keep n, ids-write_first p f rest keep)

pub ids-append : (xs ys : List Node) → ids (xs ++ ys) ≡ ids xs ++ ids ys
ids-append [] ys = refl
ids-append (x ∷ xs) ys = ap (λ zs. x.info.device_id ∷ zs) (ids-append xs ys)

pub any-eq-find :
    (p : Node → Bool) (nodes : List Node)
    → any p nodes ≡ elim (find p nodes) [ none ↦ false | some n ↦ true ]
any-eq-find p [] = refl
any-eq-find p (n ∷ rest) = ground (arith, any-eq-find p rest)

-- An ID that no node passes for is the ID of none.
pub All-of-any :
    (id : ℕ) (nodes : List Node) → any (has_id id) nodes ≡ false → All (λ y. y ≢ id) (ids nodes)
All-of-any id [] h = tt
All-of-any id (n ∷ rest) h = ground (arith, All-of-any id rest)

pub find-of-All :
    (id : ℕ) (nodes : List Node) → All (λ y. y ≢ id) (ids nodes) → find (has_id id) nodes ≡ none
find-of-All id [] h = refl
find-of-All id (n ∷ rest) h = ground (arith, find-of-All id rest h.1)

pub All-remove_first :
    (p : Node → Bool) (id : ℕ) (nodes : List Node)
    → All (λ y. y ≢ id) (ids nodes)
    → All (λ y. y ≢ id) (ids (remove_first p nodes))
All-remove_first p id [] h = tt
All-remove_first p id (n ∷ rest) h = ground (arith, All-remove_first p id rest h.1)

pub Distinct-remove_first :
    (p : Node → Bool) (nodes : List Node)
    → Distinct (ids nodes)
    → Distinct (ids (remove_first p nodes))
Distinct-remove_first p [] h = tt
Distinct-remove_first p (n ∷ rest) h =
    ground (arith, Distinct-remove_first p rest h.1, All-remove_first p n.info.device_id rest h.0)

-- What is found under an ID after a write under an ID.
pub find-write_first :
    (id j : ℕ) (f : Node → Node) (nodes : List Node)
    → ((n : Node) → has_id id n ≡ true → (f n).info.device_id ≡ id)
    → find (has_id j) (write_first (has_id id) f nodes)
      ≡ (if id == j then Option.map f (find (has_id j) nodes) else find (has_id j) nodes)
find-write_first id j f [] keep = ground arith
find-write_first id j f (n ∷ rest) keep = ground (arith, keep n, find-write_first id j f rest keep)

pub ne-of-All :
    (p : Node → Bool) (id : ℕ) (nodes : List Node) {n : Node}
    → All (λ y. y ≢ id) (ids nodes)
    → find p nodes ≡ some n
    → n.info.device_id ≢ id
ne-of-All p id [] a h = cc
ne-of-All p id (m ∷ rest) {n} a h = ground (arith, ne-of-All p id rest {n = n} a.1)

-- What is found under an ID after a removal, where no ID stands twice.
pub find-remove_first :
    (p : Node → Bool) (j : ℕ) (nodes : List Node) {n : Node}
    → Distinct (ids nodes)
    → find p nodes ≡ some n
    → find (has_id j) (remove_first p nodes)
      ≡ (if n.info.device_id == j then none else find (has_id j) nodes)
find-remove_first p j [] d h = ground arith
find-remove_first p j (m ∷ rest) {n} d h = ground (
  arith,
  find-remove_first p j rest {n = n} d.1,
  find-of-All m.info.device_id rest d.0,
  ne-of-All p m.info.device_id rest {n = n} d.0,
)
