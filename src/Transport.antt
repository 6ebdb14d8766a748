-- ===== src/Transport.antt =====
-- common/dds_transport.c: the receive loops, and the life of a transport and of the DDS domain.
-- What the DDS library answers is an argument: a list of the results of `dds_take`, a record of
-- the entity numbers that it hands out. A function that uses a freed or null transport faults.
pub mod Receive
pub mod Life
pub mod Listen
use mathlib.Core.Option
use rmt_library.Common.{
  ℕ, zero, suc, ◌+◌, ◌-◌, ◌%◌, ◌^◌, Bool, true, false, ◌&&◌, ◌||◌, not, if◌then◌else◌, ◌==◌, Option,
  none, some, List, [], ◌∷◌, Bytes, ℤ, pos, negsuc, minus_one, is_neg,
}

-- `PAIR_KIND`
pub data PairKind : Type 0 where
  dev_info data_req data_reply : PairKind

abbrev pub is_dev_info : PairKind → Bool
is_dev_info dev_info = true
is_dev_info _ = false

-- one answer of `dds_take` or `dds_take_instance`, for at most one sample
pub record Taken {ℓ} (M : Type ℓ) : Type ℓ where
  pub rc : ℤ
  pub valid_data : Bool
  pub sample : M
  pub publication_handle : ℕ

-- `rc > 0`
abbrev pub is_pos : ℤ → Bool
is_pos (pos zero) = false
is_pos (pos (suc n)) = true
is_pos (negsuc n) = false

module _ {ℓ κ} {M : Type ℓ} {S : Type κ} where
  -- `dds_transport_try_recv`: the list is what the reader answers, and an empty list is a reader with no
  -- sample. The result is the return code, the state and what is left in the reader.
  unfoldable pub try_recv :
      PairKind → (M → ℕ → S → Option S) → List (Taken M) → S → Option (ℤ × S × List (Taken M))
  try_recv kind func [] s = some (pos 0, s, [])
  try_recv kind func (t ∷ takes) s =
      let called = func t.sample (if is_dev_info kind then t.publication_handle else 0) s in
      if is_neg t.rc
      then some (minus_one, s, takes)
      else if is_pos t.rc && t.valid_data
      then (elim called [ none ↦ none | some s' ↦ try_recv kind func takes s' ])
      else some (pos 0, s, takes)

  -- `dds_transport_try_recv_instance`: the reader answers for one instance, and the callback gets
  -- no handle.
  unfoldable pub try_recv_instance :
      (M → S → Option S) → List (Taken M) → S → Option (ℤ × S × List (Taken M))
  try_recv_instance func [] s = some (pos 0, s, [])
  try_recv_instance func (t ∷ takes) s =
      let called = func t.sample s in
      if is_neg t.rc
      then some (minus_one, s, takes)
      else if is_pos t.rc && t.valid_data
      then (elim called [ none ↦ none | some s' ↦ try_recv_instance func takes s' ])
      else some (pos 0, s, takes)

-- the return code of `dds_transport_send`, from that of `dds_write` (`DDS_RETCODE_OK` is 0)
unfoldable pub send : ℤ → ℤ
send (pos zero) = pos 0
send (pos (suc n)) = minus_one
send (negsuc n) = minus_one

-- `dds_transport`: the entities that its functions use
pub record Transport : Type 0 where
  pub participant : ℤ
  pub topic : PairKind → ℤ
  pub reader : PairKind → ℤ
  pub writer : PairKind → ℤ

-- `struct dds_transport *`: null, a transport that may be used, or one that was freed
pub data Pointer : Type 0 where
  null : Pointer
  live : Transport → Pointer
  freed : Pointer

-- `if (transport)`
abbrev pub non_null : Pointer → Bool
non_null null = false
non_null _ = true

-- the file's global variables
pub record Globals : Type 0 where
  pub domain : ℤ
  pub domain_id : ℤ
  pub participant_num : ℕ

-- what the platform answers while a transport is made: whether `malloc` succeeds, and the number
-- of each entity, negative for a failure
pub record Answers : Type 0 where
  pub malloc_ok : Bool
  pub participant : ℤ
  pub topic : PairKind → ℤ
  pub reader : PairKind → ℤ
  pub writer : PairKind → ℤ

-- `DDS_RETCODE_PRECONDITION_NOT_MET`: it is -4
abbrev pub is_precondition_not_met : ℤ → Bool
is_precondition_not_met (negsuc n) = n == 3
is_precondition_not_met (pos n) = false

-- `dds_transport_config_init`, with the answer of `dds_create_domain`
unfoldable pub config_init : ℤ → ℤ → Globals → ℤ × Globals
config_init created domain_id g = (
  if is_neg created && not (is_precondition_not_met created) then minus_one else pos 0,
  record g { domain = created; domain_id = domain_id },
)

-- the entities of a new transport
abbrev pub made : Answers → Transport
made a = record {
  participant = a.participant;
  topic = a.topic;
  reader = a.reader;
  writer = a.writer;
}

-- `dds_transport_init`: it counts the participant as soon as it is made, and on a later failure
-- returns the pointer that it has freed.
unfoldable pub transport_init : Answers → Globals → Pointer × Globals
transport_init a g =
    let counted = record g { participant_num = (g.participant_num + 1) % 2 ^ 32 } in
    if not a.malloc_ok
    then (null, g)
    else if is_neg a.participant
    then (freed, g)
    else if is_neg (a.topic dev_info)
    then (freed, counted)
    else if is_neg (a.topic data_req)
    then (freed, counted)
    else if is_neg (a.topic data_reply)
    then (freed, counted)
    else (live (made a), counted)

-- the readers and writers of `dds_transport_server_init` (built without SUPPORT_ZENOH), in order
pub server_entities : Answers → Pointer → Option Pointer
server_entities a null = some null
server_entities a freed = none
server_entities a (live t) = some (
    if is_neg (a.reader dev_info)
    then freed
    else if is_neg (a.writer data_req)
    then freed
    else if is_neg (a.reader data_reply)
    then freed
    else live t)

-- `dds_transport_server_init`
pub server_init : Answers → Globals → Option (Pointer × Globals)
server_init a g =
    let (p, g') = transport_init a g in Option.map (λ p'. (p', g')) (server_entities a p)

-- the writers and readers of `dds_transport_agent_init`, in order
pub agent_entities : Answers → Pointer → Option Pointer
agent_entities a null = some null
agent_entities a freed = none
agent_entities a (live t) = some (
    if is_neg (a.writer dev_info)
    then freed
    else if is_neg (a.reader data_req)
    then freed
    else if is_neg (a.writer data_reply)
    then freed
    else live t)

-- `dds_transport_agent_init`
pub agent_init : Answers → Globals → Option (Pointer × Globals)
agent_init a g =
    let (p, g') = transport_init a g in Option.map (λ p'. (p', g')) (agent_entities a p)

-- `dds_transport_deinit`, with the answer of `dds_delete` for the participant
unfoldable pub deinit : ℤ → Pointer → Globals → Option (ℤ × Globals)
deinit deleted null g = none
deinit deleted freed g = none
deinit deleted (live t) g =
    let left = (g.participant_num + (2 ^ 32 - 1)) % 2 ^ 32 in
    some (
      send deleted,
      record g {
        domain = if left == 0 && is_pos g.domain then pos 0 else g.domain;
        participant_num = left;
      },
    )
