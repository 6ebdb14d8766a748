-- ===== src/DevInfo/Loops.antt =====
-- The loops of server/devinfo_server.c do what the operations of `Ids` say.
use mathlib.Core.Option
use rmt_library.Common.{
  ℕ, zero, suc, ◌≤◌, ◌≡◌, refl, ap, Bool, if◌then◌else◌, none, some, List, [], ◌∷◌, ◌++◌, arith,
  length, find, take, drop, take-append-drop, Bool-cases, Option-cases, inl, inr,
}
use rmt_library.Types.{DeviceInfo, DeviceMsg, TransferStatus, TransferResult}
use rmt_library.DevInfo.{
  Node, has_id, fill, replace, unlink_next, unlink, set_loop, get_loop, copy_infos,
}
use rmt_library.DevInfo.Ids.{any, write_first, remove_first}

-- the write of `devinfo_server_set_status_by_id`
abbrev pub put_status : TransferStatus → TransferResult → Node → Node
put_status status result n = record n { agent_transfer_status = status; transfer_result = result }

pub replace_lem :
    (msg : DeviceMsg) (handle : ℕ) (nodes : List Node)
    → replace msg handle nodes ≡ (
        if any (has_id msg.device_id) nodes
        then some (write_first (has_id msg.device_id) (fill msg handle) nodes)
        else none)
unfolding replace
replace_lem msg handle [] = refl
replace_lem msg handle (n ∷ rest) = ground (arith, replace_lem msg handle rest)

unlink_next_lem :
    (p : Node → Bool) (nodes : List Node)
    → unlink_next p nodes ≡ Option.map (λ n. (n, remove_first p nodes)) (find p nodes)
unfolding unlink_next
unlink_next_lem p [] = refl
unlink_next_lem p (n ∷ rest) = elim (Bool-cases (p n)) [
  | inl e ↦ rw (e) refl
  | inr e ↦
      rw (e, unlink_next_lem p rest)
        (elim (Option-cases (find p rest)) [ inl f ↦ rw f refl | inr (m, f) ↦ rw f refl ])
]

pub unlink_lem :
    (p : Node → Bool) (nodes : List Node)
    → unlink p nodes ≡ Option.map (λ n. (n, remove_first p nodes)) (find p nodes)
unfolding unlink unlink_next
unlink_lem p [] = refl
unlink_lem p (n ∷ rest) = unlink_next_lem p (n ∷ rest)

pub set_loop_lem :
    (id : ℕ) (status : TransferStatus) (result : TransferResult) (i : ℕ) (nodes : List Node)
    → i ≤ length nodes
    → set_loop id status result i nodes
      ≡ some (
        any (has_id id) (take i nodes),
        write_first (has_id id) (put_status status result) (take i nodes) ++ drop i nodes,
      )
unfolding set_loop
set_loop_lem id status result zero nodes h = refl
set_loop_lem id status result (suc i) [] h = absurd (omega arith)
set_loop_lem id status result (suc i) (n ∷ rest) h =
    ground (arith, set_loop_lem id status result i rest, take-append-drop i rest)

pub get_loop_lem :
    (id i : ℕ) (nodes : List Node)
    → i ≤ length nodes
    → get_loop id i nodes ≡ some (find (has_id id) (take i nodes))
unfolding get_loop
get_loop_lem id zero nodes h = refl
get_loop_lem id (suc i) [] h = absurd (omega arith)
get_loop_lem id (suc i) (n ∷ rest) h = ground (arith, get_loop_lem id i rest)

abbrev pub infos : List Node → List DeviceInfo
infos [] = []
infos (n ∷ rest) = n.info ∷ infos rest

pub length-infos : (nodes : List Node) → length (infos nodes) ≡ length nodes
length-infos [] = refl
length-infos (n ∷ rest) = ap suc (length-infos rest)

pub copy_infos_lem :
    (i : ℕ) (nodes : List Node)
    → i ≤ length nodes
    → copy_infos i nodes ≡ some (infos (take i nodes))
unfolding copy_infos
copy_infos_lem zero nodes h = refl
copy_infos_lem (suc i) [] h = absurd (omega arith)
copy_infos_lem (suc i) (n ∷ rest) h = rw (copy_infos_lem i rest (omega arith))

-- A loop that counts past the end of the list follows its null pointer.
pub copy_infos_fault :
    (i : ℕ) (nodes : List Node) → suc (length nodes) ≤ i → copy_infos i nodes ≡ none
unfolding copy_infos
copy_infos_fault zero nodes h = absurd (omega arith)
copy_infos_fault (suc i) [] h = refl
copy_infos_fault (suc i) (n ∷ rest) h = rw (copy_infos_fault i rest (omega arith))
