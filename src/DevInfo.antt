-- ===== src/DevInfo.antt =====
-- server/devinfo_server.c: the linked list of known devices, with the file-transfer status of each.
-- The list behind `g_dev_head` is a list of nodes, newest first. A function that can follow a null
-- pointer returns `none` for that fault. The mutex makes each function one atomic step.
pub mod Ids
pub mod Loops
pub mod Ops
pub mod Inv
pub mod Lookup
pub mod Status
pub mod Lost
pub mod Size
pub mod Refine
pub mod Order
use mathlib.Core.Option
use rmt_library.Common.{
  ℕ, zero, suc, ◌+◌, ◌-◌, ◌%◌, ◌^◌, Bool, true, false, if◌then◌else◌, ◌==◌, Option, none, some,
  List, [], ◌∷◌, Bytes, ℤ, pos, minus_one,
}
use rmt_library.Types.{
  DeviceInfo, DeviceMsg, TransferStatus, status_agent_error, TransferResult, empty_result,
}

-- `dev_list`, without its `next`
pub record Node : Type 0 where
  pub info : DeviceInfo
  pub agent_transfer_status : TransferStatus
  pub transfer_result : TransferResult
  pub internal_id : ℕ

-- `g_dev_head` and `g_dev_num`
pub record Registry : Type 0 where
  pub dev_head : List Node
  pub dev_num : ℕ

-- `g_dev_num++` and `g_dev_num--` on `uint32_t`
abbrev pub incr32 : ℕ → ℕ
incr32 n = (n + 1) % 2 ^ 32

abbrev pub decr32 : ℕ → ℕ
decr32 n = (n + (2 ^ 32 - 1)) % 2 ^ 32

abbrev pub has_id : ℕ → Node → Bool
has_id id n = n.info.device_id == id

abbrev pub has_internal_id : ℕ → Node → Bool
has_internal_id internal_id n = n.internal_id == internal_id

-- the fields that `add_device` writes; the rest of the node keeps what it held
abbrev pub fill : DeviceMsg → ℕ → Node → Node
fill msg handle n = record n { info = msg; internal_id = handle }

-- the search of `add_device`, and the write through the node that it finds
pub replace : DeviceMsg → ℕ → List Node → Option (List Node)
replace msg handle [] = none
replace msg handle (n ∷ rest) =
    if has_id msg.device_id n
    then some (fill msg handle n ∷ rest)
    else Option.map (λ rest'. n ∷ rest') (replace msg handle rest)

-- `add_device`; `fresh` is what `malloc` returns, of which the status fields are never set.
pub add_device : Node → DeviceMsg → ℕ → Registry → Registry
add_device fresh msg handle s = elim (replace msg handle s.dev_head) [
  | none ↦ record { dev_head = fill msg handle fresh ∷ s.dev_head; dev_num = incr32 s.dev_num }
  | some nodes ↦ record s { dev_head = nodes }
]

-- the loop of `del_device`: it looks at `dev_ptr->next`, and unlinks the first match
pub unlink_next : (Node → Bool) → List Node → Option (Node × List Node)
unlink_next p [] = none
unlink_next p (next ∷ rest) =
    if p next then some (next, rest) else Option.map (λ r. (r.0, next ∷ r.1)) (unlink_next p rest)

-- the search of `del_device`: no list, the head, and then the loop
pub unlink : (Node → Bool) → List Node → Option (Node × List Node)
unlink p [] = none
unlink p (head ∷ rest) =
    if p head then some (head, rest) else Option.map (λ r. (r.0, head ∷ r.1)) (unlink_next p rest)

pub del_first : (Node → Bool) → Registry → Registry
del_first p s = elim (unlink p s.dev_head) [
  | none ↦ s
  | some r ↦ record { dev_head = r.1; dev_num = decr32 s.dev_num }
]

-- `del_device`, and the callback that the transport calls
pub del_device : ℕ → Registry → Registry
del_device internal_id = del_first (has_internal_id internal_id)

-- `strstr(hay, needle) != NULL`
pub starts_with : Bytes → Bytes → Bool
starts_with [] hay = true
starts_with (c ∷ needle) [] = false
starts_with (c ∷ needle) (h ∷ hay) = if c == h then starts_with needle hay else false

pub contains : Bytes → Bytes → Bool
contains needle [] = starts_with needle []
contains needle (h ∷ hay) = if starts_with needle (h ∷ hay) then true else contains needle hay

-- `devinfo_server_del_device_callback_robot_id`
pub del_robot : Bytes → Registry → Registry
del_robot robot_id = del_first (λ n. contains robot_id n.info.devinfo)

-- the copy loop of `devinfo_server_create_list`, over `i` nodes
pub copy_infos : ℕ → List Node → Option (List DeviceInfo)
copy_infos zero nodes = some []
copy_infos (suc i) [] = none
copy_infos (suc i) (n ∷ rest) = Option.map (λ infos. n.info ∷ infos) (copy_infos i rest)

-- The part of `devinfo_server_create_list` behind the update: the number, and the array or a null pointer.
-- `malloc_ok` says for how many entries there is memory.
pub list_devices : (ℕ → Bool) → Registry → Option (ℕ × Option (List DeviceInfo))
list_devices malloc_ok s =
    let copied = copy_infos s.dev_num s.dev_head in
    if malloc_ok s.dev_num
    then Option.map (λ infos. (s.dev_num, some infos)) copied
    else some (s.dev_num, none)

-- the loop of `devinfo_server_deinit`: it frees the head as long as there is one
free_all : List Node → ℕ → Registry
free_all [] num = record { dev_head = []; dev_num = num }
free_all (n ∷ rest) num = free_all rest (decr32 num)

pub deinit : Registry → Registry
unfolding free_all
deinit s = free_all s.dev_head s.dev_num

-- `devinfo_server_init`
unfoldable pub init : Registry
init = record { dev_head = []; dev_num = 0 }

-- the loop of `devinfo_server_set_status_by_id`: whether a device was found, and the nodes
pub set_loop : ℕ → TransferStatus → TransferResult → ℕ → List Node → Option (Bool × List Node)
set_loop id status result zero nodes = some (false, nodes)
set_loop id status result (suc i) [] = none
set_loop id status result (suc i) (n ∷ rest) =
    if has_id id n
    then some (true, record n { agent_transfer_status = status; transfer_result = result } ∷ rest)
    else Option.map (λ r. (r.0, n ∷ r.1)) (set_loop id status result i rest)

-- `devinfo_server_set_status_by_id`
pub set_status : ℕ → TransferStatus → TransferResult → Registry → Option (ℤ × Registry)
set_status id status result s =
    Option.map (λ r. (if r.0 then pos 0 else minus_one, record s { dev_head = r.1 }))
      (set_loop id status result s.dev_num s.dev_head)

-- the loop of `devinfo_server_get_status_by_id`: the node that it finds
pub get_loop : ℕ → ℕ → List Node → Option (Option Node)
get_loop id zero nodes = some none
get_loop id (suc i) [] = none
get_loop id (suc i) (n ∷ rest) = if has_id id n then some (some n) else get_loop id i rest

-- what `devinfo_server_get_status_by_id` writes through its two pointers
abbrev pub status_of : Option Node → TransferStatus × TransferResult
status_of none = (status_agent_error, empty_result)
status_of (some n) = (n.agent_transfer_status, n.transfer_result)

pub get_status : ℕ → Registry → Option (TransferStatus × TransferResult)
get_status id s = Option.map status_of (get_loop id s.dev_num s.dev_head)
