-- ===== src/Example.antt =====
-- The client of server/server_example.c: its options, its commands as calls of the API, and its `main`.
pub mod Wait
pub mod Transfer
pub mod Delivered
pub mod Search
pub mod Options
pub mod Stopped
use mathlib.Core.Option
use rmt_library.Common.{
  ℕ, zero, suc, ◌+◌, ◌^◌, ◌<◌, Bool, true, false, if◌then◌else◌, ltb, ◌==◌, Option, none, some,
  List, [], ◌∷◌, ◌++◌, Bytes, length, map, str_eq, ℤ, pos, take,
}
use rmt_library.Types.{
  DeviceInfo, DeviceMsg, DataInfo, Entry, Request, TransferStatus, TransferResult, is_running,
  config_key_str_len,
}
use rmt_library.Transport.{Taken}
use rmt_library.Config.{codes}
use rmt_library.DevInfo.{Node}
use rmt_library.DataInfo.{Env, Outcome, fault, pending, finished}
use rmt_library.Server.{
  Server, Surroundings, turn, create_device_list, get_info, set_info, set_info_with_same_value,
  send, receive, get_result,
}
use rmt_library.Server.Start.{Process, Platform, server_configure, init, deinit}

infixl 1 ◌>>=◌
-- what a part of the client comes to, and then the next part
abbrev pub ◌>>=◌ {ℓ κ} : {A : Type ℓ} {B : Type κ} → Outcome A → (A → Outcome B) → Outcome B
fault >>= f = fault
pending >>= f = pending
finished a >>= f = f a

abbrev pub or_fault {ℓ} : {A : Type ℓ} → Option A → Outcome A
or_fault none = fault
or_fault (some a) = finished a

-- What the client prints, with the values that it prints. A text that is read from a null pointer is `none`.
pub data Said : Type 0 where
  version_said help_said not_supported_said : Said
  device_said : ℕ → DeviceInfo → Said
  tried_said : ℕ → Said
  note_said : Bytes → Said
  entry_said : ℕ → Bytes → Said
  sent_said : TransferStatus → ℤ → Said
  received_said : TransferStatus → ℤ → Option Bytes → Said

-- the loops over `i < num` that read an array
abbrev pub read_first {ℓ} : {A : Type ℓ} → ℕ → List A → Option (List A)
read_first zero l = some []
read_first (suc n) [] = none
read_first (suc n) (x ∷ l) = Option.map (λ rest. x ∷ rest) (read_first n l)

-- the same behind a pointer, which may be null
abbrev pub read_array {ℓ} : {A : Type ℓ} → ℕ → Option (List A) → Option (List A)
read_array zero none = some []
read_array (suc n) none = none
read_array n (some l) = read_first n l

-- what `rmt_server_create_device_list` is answered: the memory, a fresh node and the reader
pub record Discovery : Type 0 where
  pub malloc_ok : ℕ → Bool
  pub fresh : Node
  pub takes : List (Taken DeviceMsg)

-- The devices that a command reads. An array or a number that is never set is a fault, and so is a number that is
-- negative in the client's `int`: it goes on to the request as a length.
abbrev pub read_devices :
    Option (Option (ℕ × Option (List DeviceInfo)) × Server) → Outcome (List DeviceInfo × Server)
read_devices none = fault
read_devices (some (none, s)) = fault
read_devices (some (some (dev_num, dev_ptr), s)) =
    let devs = or_fault (Option.map (λ l. (l, s)) (read_array dev_num dev_ptr)) in
    if ltb dev_num (2 ^ 31) then devs else fault

abbrev pub listed : Discovery → Server → Outcome (List DeviceInfo × Server)
listed d s = read_devices (create_device_list d.malloc_ok d.fresh d.takes s)

-- the entries that a command reads behind a call that waits for replies; a stopped server has none
abbrev pub asked :
    Option (Option (Request × Outcome (List Entry)) × Server) → Outcome (List Entry × Server)
asked none = fault
asked (some (none, s)) = finished ([], s)
asked (some (some (req, fault), s)) = fault
asked (some (some (req, pending), s)) = pending
asked (some (some (req, finished info_list), s)) = finished (info_list, s)

-- The printing loops. A list of values without a terminator is read behind its array.
abbrev pub devices_said : ℕ → List DeviceInfo → List Said
devices_said i [] = []
devices_said i (dev ∷ devs) = device_said i dev ∷ devices_said (i + 1) devs

abbrev pub entry_text : Entry → Option Said
entry_text info = Option.map (λ text. entry_said info.device_id text) info.value_list

abbrev pub entries_said : List Entry → Option (List Said)
entries_said [] = some []
entries_said (info ∷ infos) = elim (entry_text info) [
  | none ↦ none
  | some said ↦ Option.map (λ rest. said ∷ rest) (entries_said infos)
]

abbrev pub ids_of : List DeviceInfo → List ℕ
ids_of = map (λ (dev : DeviceInfo). dev.device_id)

unfoldable pub server_cmd_search_and_get : Discovery → Env → Server → Outcome (List Said × Server)
server_cmd_search_and_get d env s = do
  (devs, s₁) ← listed d s
  (infos, s₂) ← asked (get_info env (ids_of devs) (codes "cpu;ram;hostname;wifi;") s₁)
  said ← or_fault (entries_said infos)
  finished (devices_said 0 devs ++ (tried_said (length infos) ∷ said), s₂)

-- the turns of the thread while the client sleeps
abbrev pub turns : List Surroundings → Server → Option Server
turns [] s = some s
turns (env ∷ envs) s = elim (turn env s) [ none ↦ none | some s' ↦ turns envs s' ]

-- the ID that is written into the client
abbrev pub agent_id : ℕ
agent_id = 6166

unfoldable pub server_cmd_set :
    Env → List Surroundings → Env → Server → Outcome (List Said × Server)
server_cmd_set env sleep same_env s = do
  (infos, s₁) ← asked (
      set_info env
        (record { device_id = agent_id; value_list = codes "hostname:ros-ROScube-I;locate:on;" }
          ∷ [])
        s)
  said ← or_fault (entries_said infos)
  s₂ ← or_fault (turns sleep s₁)
  (sames, s₃) ← asked (
      set_info_with_same_value same_env (agent_id ∷ []) (codes "hostname:ros-ROScube-I;locate:off")
        s₂)
  said_same ← or_fault (entries_said sames)
  finished (
    (note_said (codes "Try to set info to id 6166") ∷ said)
        ++ (note_said (codes "Try to set info to id 6166 with same value") ∷ said_same),
    s₃,
  )

unfoldable pub server_cmd_set_task : Env → Server → Outcome (List Said × Server)
server_cmd_set_task env s = do
  (infos, s₁) ← asked (
      set_info env (record { device_id = agent_id; value_list = codes "task_mode:Navigation" } ∷ [])
        s)
  said ← or_fault (entries_said infos)
  finished (note_said (codes "Try to set task to id 6166") ∷ said, s₁)

unfoldable pub server_cmd_get_task : Discovery → Env → Server → Outcome (List Said × Server)
server_cmd_get_task d env s = do
  (devs, s₁) ← listed d s
  (infos, s₂) ← asked (get_info env (ids_of devs) (codes "task_list;task_mode") s₁)
  said ← or_fault (entries_said infos)
  finished (tried_said (length infos) ∷ said, s₂)

-- The loop `while (... == STATUS_RUNNING)` over `rmt_server_get_result`, with a turn of the thread in each round, and
-- what the client's `file_result` holds, which is not set at first.
unfoldable pub wait_result :
    ℕ
    → List Surroundings
    → Option TransferResult
    → Server
    → Outcome ((TransferStatus × Option TransferResult) × Server)
wait_result id [] held s = elim (get_result id s) [
  | none ↦ fault
  | some ((status, result), s') ↦ (elim (is_running status) [
    | true ↦ pending
    | false ↦ finished ((status, elim result [ none ↦ held | some r ↦ some r ]), s')
  ])
]
wait_result id (env ∷ envs) held s = elim (get_result id s) [
  | none ↦ fault
  | some ((status, result), s') ↦ (elim (is_running status) [
    | true ↦ (elim (turn env s') [
      | none ↦ fault
      | some s'' ↦ wait_result id envs (elim result [ none ↦ held | some r ↦ some r ]) s''
    ])
    | false ↦ finished ((status, elim result [ none ↦ held | some r ↦ some r ]), s')
  ])
]

-- the file, without its terminator
abbrev pub file_content : Bytes
file_content = codes "This is file content." ++ (10 ∷ [])

unfoldable pub server_cmd_send_file :
    ℕ → ℕ → List Surroundings → Server → Outcome (List Said × Server)
server_cmd_send_file seq now around s = do
  (sent, s₁) ← or_fault (
      send seq now (agent_id ∷ []) (codes "custom_callback") (codes "myfile.txt") file_content
        (length file_content) s)
  ((status, held), s₂) ← wait_result agent_id around none s₁
  result ← or_fault held
  finished (sent_said status result.result ∷ [], s₂)

-- what `printf` reads behind a pointer to some bytes: it must find a zero
abbrev pub printed : Bytes → Option Bytes
printed [] = none
printed (c ∷ rest) =
    let more = printed rest in if c == 0 then some [] else Option.map (λ l. c ∷ l) more

abbrev pub printed_file : Option Bytes → Option (Option Bytes)
printed_file none = some none
printed_file (some content) = Option.map some (printed content)

unfoldable pub server_cmd_recv_file :
    ℕ → ℕ → List Surroundings → Server → Outcome (List Said × Server)
server_cmd_recv_file seq now around s = do
  (asked_for, s₁) ←
      or_fault (receive seq now agent_id (codes "custom_callback") (codes "myfile.txt") s)
  ((status, held), s₂) ← wait_result agent_id around none s₁
  result ← or_fault held
  text ← or_fault (printed_file result.file)
  finished (received_said status result.result text ∷ [], s₂)

-- `SVR_CMD` without its sum, and `svr_cmd_mapping`
pub data Command : Type 0 where
  cmd_search cmd_set cmd_get_task cmd_set_task cmd_send_file cmd_recv_file cmd_all : Command

abbrev pub commands : List Command
commands =
    cmd_search ∷ cmd_set ∷ cmd_get_task ∷ cmd_set_task ∷ cmd_send_file ∷ cmd_recv_file ∷ cmd_all
    ∷ []

abbrev pub text_of : Command → Bytes
text_of cmd_search = codes "search"
text_of cmd_set = codes "set"
text_of cmd_get_task = codes "task-get"
text_of cmd_set_task = codes "task-set"
text_of cmd_send_file = codes "sendfile"
text_of cmd_recv_file = codes "recvfile"
text_of cmd_all = codes "all"

-- the search in `svr_cmd_mapping`, and the command of a first argument, if there is one
abbrev pub find_command : Bytes → List Command → Command
find_command text [] = cmd_search
find_command text (c ∷ rest) = if str_eq (text_of c) text then c else find_command text rest

abbrev pub select : Option Bytes → Command
select none = cmd_search
select (some text) = find_command text commands

-- one answer of `getopt_long`
pub data Opt : Type 0 where
  net : Bytes → Opt
  help not_supported : Opt

-- The loop over the options: a name of 50 bytes or more leaves its buffer; the program goes on with an interface,
-- or ends with a code.
pub data Parsed : Type 0 where
  overflow : Parsed
  ends : ℤ → Said → Parsed
  goes : Option Bytes → Parsed

unfoldable pub parse : List Opt → Option Bytes → Parsed
parse [] my_interface = goes my_interface
parse (net optarg ∷ opts) my_interface =
    let rest = parse opts (some optarg) in if ltb (length optarg) 50 then rest else overflow
parse (help ∷ opts) my_interface = ends (pos 0) help_said
parse (not_supported ∷ opts) my_interface = ends (pos 1) not_supported_said

-- what each command is answered
pub record Answered : Type 0 where
  pub discovery : Discovery
  pub get_env : Env
  pub set_env : Env
  pub sleep : List Surroundings
  pub same_env : Env
  pub send_seq : ℕ
  pub send_now : ℕ
  pub send_turns : List Surroundings
  pub recv_seq : ℕ
  pub recv_now : ℕ
  pub recv_turns : List Surroundings

unfoldable pub dispatch : Command → Answered → Server → Outcome (List Said × Server)
dispatch cmd_search a s = server_cmd_search_and_get a.discovery a.get_env s
dispatch cmd_set a s = server_cmd_set a.set_env a.sleep a.same_env s
dispatch cmd_get_task a s = server_cmd_get_task a.discovery a.get_env s
dispatch cmd_set_task a s = server_cmd_set_task a.set_env s
dispatch cmd_send_file a s = server_cmd_send_file a.send_seq a.send_now a.send_turns s
dispatch cmd_recv_file a s = server_cmd_recv_file a.recv_seq a.recv_now a.recv_turns s
dispatch cmd_all a s = do
  (l₁, s₁) ← server_cmd_search_and_get a.discovery a.get_env s
  (l₂, s₂) ← server_cmd_set a.set_env a.sleep a.same_env s₁
  (l₃, s₃) ← server_cmd_send_file a.send_seq a.send_now a.send_turns s₂
  (l₄, s₄) ← server_cmd_recv_file a.recv_seq a.recv_now a.recv_turns s₃
  finished (l₁ ++ (l₂ ++ (l₃ ++ l₄)), s₄)

-- `rmt_server_configure`, only for a chosen interface
abbrev pub configured : Platform → Option Bytes → Process → Outcome (ℤ × Process)
configured env none p = finished (pos 0, p)
configured env (some name) p = or_fault (server_configure env.outside (some name) (pos 0) p)

-- `main` behind its options: the code of `rmt_server_init` is not looked at.
unfoldable pub serve :
    Platform → Option Bytes → Command → Answered → ℤ → Process → Outcome (List Said × Process)
serve env my_interface svr_cmd a deleted p = do
  (c, p₁) ← configured env my_interface p
  (i, p₂) ← or_fault (init env p₁)
  (said, s) ← dispatch svr_cmd a p₂.server
  (d, p₃) ← or_fault (deinit deleted (record p₂ { server = s }))
  finished (version_said ∷ said, p₃)

-- `main`, with what `getopt_long` answers and the argument behind the options
pub main :
    Platform → List Opt → Option Bytes → Answered → ℤ → Process → Outcome (ℤ × List Said × Process)
main env opts argument a deleted p = elim (parse opts none) [
  | overflow ↦ fault
  | ends code said ↦ finished (code, said ∷ [], p)
  | goes my_interface ↦
      serve env my_interface (select argument) a deleted p >>= λ r. finished (pos 0, r.0, r.1)
]
