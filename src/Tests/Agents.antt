-- ===== src/Tests/Agents.antt =====
-- Runs of agent/datainfo_agent.c, with one value that a client may get and set, and one file callback.
use rmt_library.Common.{
  ℕ, ◌≡◌, refl, true, some, none, List, [], ◌∷◌, ◌++◌, Bytes, pos, minus_one, print_int, print_ℕ,
  digits, arith, get_elem?,
}
use rmt_library.Types.{DataInfo, Request, Reply, get}
use rmt_library.Transport.{live, made, null, Taken}
use rmt_library.DataInfo.{answers, strcat}
use rmt_library.Strings.{tokens_from, cut}
use rmt_library.DataInfo.Message.{joined}
use rmt_library.Agent.Queue.{Queue, init, push, send_data}
use rmt_library.Agent.Queue.Fifo.{Holds, init-Holds, push-Holds, send_data-Holds}
use rmt_library.Agent.Info.{
  DataFunc, find_key, read_value, add_answer, get_keys, get_reply, set_reply, found_idx, pick_list,
}
use rmt_library.Agent.Info.Get.{get_reply_lem}
use rmt_library.Agent.Info.Set.{encode, IsPair, set_reply-encode}
use rmt_library.Agent.Info.Route.{set_routed, set_misrouted}
use rmt_library.Agent.Files.{FileFunc, Disk, find_callback, import_reply, export_reply}
use rmt_library.Agent.Files.Names.{import_called, export_called}
use rmt_library.Agent.Requests.{Setup, State, handle, reply_to, update}
use rmt_library.Agent.Requests.Echo.{reply_to-answers}
use rmt_library.Agent.Life as Life
use rmt_library.Agent.Life.{Device, Agent, Surroundings, update_info, message, running}
use rmt_library.Agent.Life.Publish.{update_info-changes}
use rmt_library.Agent.Life.Follow.{lost_transport}
use rmt_library.Tests.Transports.{good}
use rmt_library.Agent.Requests.Update.{serve, update_lem, update_overflow}

-- "k" is read from and written to the world; a set returns -1.
abbrev pub key_k : DataFunc Bytes
key_k = record {
  key = b'k' ∷ [];
  get_func = some (λ w. (w, w));
  set_func = some (λ v w. (minus_one, v));
}

abbrev pub maps : List (DataFunc Bytes)
maps = key_k ∷ []

abbrev pub disk : Disk Bytes
disk = record { save = λ p c w. some c; load = λ p w. some w }

abbrev pub callback : FileFunc Bytes
callback = record {
  callbackname = b'c' ∷ [];
  path = none;
  import_func = some (λ name content len w. (pos 3, content));
  export_func = none;
}

abbrev pub exporter : FileFunc Bytes
exporter = record callback {
  path = some (b'/' ∷ []);
  export_func = some (λ name content len w. (pos 4, w));
}

abbrev pub setup : Setup Bytes
setup = record { my_id = 9; disk = disk; data_funcs = maps; file_funcs = callback ∷ [] }

abbrev pub request_to : List ℕ → Request
request_to ids = record {
  id_list = ids;
  type = get;
  random_seq = 42;
  msg = b'k' ∷ (b';' ∷ []);
  binary = [];
}

abbrev pub taken : List ℕ → Taken Request
taken ids = record {
  rc = pos 1;
  valid_data = true;
  sample = request_to ids;
  publication_handle = 0;
}

abbrev pub value_of : Bytes → Bytes
value_of w = b'k' ∷ (b':' ∷ (w ++ (b';' ∷ [])))

abbrev pub answer : Reply
answer = reply_to setup (request_to (7 ∷ 9 ∷ [])) (value_of (b'v' ∷ [])) []

get_reply_lem_test :
    get_reply maps (b'k' ∷ (b';' ∷ (b'x' ∷ []))) (b'v' ∷ [])
    ≡ some (value_of (b'v' ∷ []), b'v' ∷ [])
unfolding find_key tokens_from cut read_value
get_reply_lem_test = get_reply_lem maps (b'k' ∷ (b';' ∷ (b'x' ∷ []))) (b'v' ∷ []) (omega arith)

-- the value holds the colon that also ends the key
abbrev pub pair : Bytes × Bytes
pair = (b'k' ∷ [], b'1' ∷ (b':' ∷ (b'2' ∷ [])))

pub pair-IsPair : IsPair pair
pair-IsPair = record {
  nonempty = cc;
  no_colon = (refl, tt);
  no_semicolon = (refl, tt);
  value_no_semicolon = (refl, (refl, (refl, tt)));
  value_no_end = (refl, (refl, (refl, tt)));
}

set_reply-encode_test :
    set_reply maps (encode (pair ∷ [])) none (b'v' ∷ [])
    ≡ some (b'k' ∷ (b':' ∷ (b'-' ∷ (b'1' ∷ (b';' ∷ [])))), b'1' ∷ (b':' ∷ (b'2' ∷ [])))
unfolding find_key print_int print_ℕ digits
set_reply-encode_test =
    set_reply-encode maps (pair ∷ []) none (b'v' ∷ []) (pair-IsPair, tt) (omega arith, tt)
      (omega arith)

abbrev dev : ℕ → Bytes → DataInfo
dev id value_list = record { device_id = id; value_list = value_list }

abbrev devs : List DataInfo
devs = dev 7 (b'a' ∷ []) ∷ dev 9 (b'b' ∷ []) ∷ []

set_routed_test :
    (d : DataInfo) × (rest : Bytes) × (get_elem? devs 1 ≡ some d)
    × (d.device_id ≡ 9)
    × (pick_list 1 (joined devs) ≡ some (d.value_list, some rest))
unfolding found_idx
set_routed_test = set_routed 9 1 devs (((cc), (refl, tt)), (((cc), (refl, tt)), tt)) refl

set_misrouted_example :
    (rest : Bytes) × (pick_list 1 (joined (dev 5 [] ∷ devs)) ≡ some (b'b' ∷ [], some rest))
set_misrouted_example =
    set_misrouted (dev 5 []) devs 0 refl (((cc), (refl, tt)), (((cc), (refl, tt)), tt)) refl

import_called_test :
    import_reply disk (callback ∷ []) (b'c' ∷ (b';' ∷ (b'f' ∷ []))) (1 ∷ []) []
    ≡ some (b'3' ∷ [], 1 ∷ [])
unfolding find_callback print_int print_ℕ digits
import_called_test =
    import_called disk (callback ∷ []) (b'c' ∷ []) (b'f' ∷ []) (1 ∷ []) [] [] callback
      (λ name content len w. (pos 3, content)) (cc) (refl, tt) (cc) (refl, tt) refl refl refl

export_called_test :
    export_reply disk (exporter ∷ []) (b'c' ∷ (b';' ∷ (b'f' ∷ []))) (8 ∷ [])
    ≡ some (b'4' ∷ [], some (8 ∷ []), 8 ∷ [])
unfolding find_callback print_int print_ℕ digits
export_called_test =
    export_called disk (exporter ∷ []) (b'c' ∷ []) (b'f' ∷ []) (b'/' ∷ []) (8 ∷ []) (8 ∷ [])
      exporter (λ name content len w. (pos 4, w)) (cc) (refl, tt) (cc) (refl, tt) refl refl
      (omega arith) refl refl

push-Holds_example : (q' : Queue) × (push answer init ≡ some q') × Holds q' (answer ∷ [])
push-Holds_example = push-Holds answer init-Holds (omega arith)

-- a queue with one reply
abbrev queue : Queue
queue = record { front = 15; rear = 0; slots = λ i. some answer }

queue-Holds : Holds queue (answer ∷ [])
queue-Holds = record {
  front_in = omega arith;
  room = omega arith;
  rear_at = refl;
  stored = (refl, tt);
}

send_data-Holds_test : (q' : Queue) × (send_data 16 queue ≡ (answer ∷ [], q')) × Holds q' []
send_data-Holds_test = send_data-Holds 16 (answer ∷ []) queue-Holds (omega arith)

reply_to-answers_test :
    answers (request_to (9 ∷ [])) (reply_to setup (request_to (9 ∷ [])) [] []) ≡ true
reply_to-answers_test = reply_to-answers setup (request_to (9 ∷ [])) [] []

abbrev pub start : State Bytes
start = record { queue = init; world = b'v' ∷ [] }

-- a request to another agent, and one to this agent
abbrev pub two_takes : List (Taken Request)
two_takes = taken (7 ∷ []) ∷ taken (7 ∷ 9 ∷ []) ∷ []

pub served : serve setup two_takes (b'v' ∷ []) ≡ some (answer ∷ [], b'v' ∷ [])
unfolding found_idx handle get_reply get_keys find_key tokens_from cut read_value add_answer strcat
served = refl

update_lem_example :
    (s' : State Bytes) × (update setup two_takes start ≡ some (answer ∷ [], s'))
    × Holds s'.queue []
    × (s'.world ≡ b'v' ∷ [])
update_lem_example =
    update_lem setup two_takes start (answer ∷ []) (b'v' ∷ []) init-Holds served (omega arith)

abbrev four_takes : List (Taken Request)
four_takes = taken (9 ∷ []) ∷ taken (9 ∷ []) ∷ taken (9 ∷ []) ∷ taken (9 ∷ []) ∷ []

-- sixteen requests that this agent answers
abbrev sixteen : List (Taken Request)
sixteen = four_takes ++ (four_takes ++ (four_takes ++ four_takes))

abbrev four : List Reply
four = answer ∷ answer ∷ answer ∷ answer ∷ []

served_sixteen :
    serve setup sixteen (b'v' ∷ []) ≡ some (four ++ (four ++ (four ++ four)), b'v' ∷ [])
unfolding found_idx handle get_reply get_keys find_key tokens_from cut read_value add_answer strcat
served_sixteen = refl

update_overflow_example : update setup sixteen start ≡ none
update_overflow_example =
    update_overflow setup sixteen start (four ++ (four ++ (four ++ four))) (b'v' ∷ []) init-Holds
      served_sixteen (omega arith)

abbrev pub seen : Bytes → Device
seen ip = record { hostname = b'h' ∷ []; ip = ip; mac = b'm' ∷ []; devinfo = [] }

update_info-changes_test :
    (update_info 9 [] [] (seen (b'2' ∷ [])) (update_info 9 [] [] (seen (b'1' ∷ [])) Life.init).1).0
    ≡ some (message 9 [] [] (seen (b'2' ∷ [])))
update_info-changes_test =
    update_info-changes 9 [] [] [] (seen (b'1' ∷ [])) (seen (b'2' ∷ [])) Life.init

abbrev pub agent : Agent Bytes
agent = record {
  transport = live (made good);
  info = Life.init;
  requests = start;
  globals = record { domain = pos 5; domain_id = pos 0; participant_num = 1 };
  runtime = record { net_interface = b'e' ∷ []; net_ip = b'1' ∷ [] };
}

-- the agent sees its old interface, and then a new one on which no domain can be made
abbrev pub home : Surroundings
home = record {
  auto_detect_interface = true;
  interface = b'e' ∷ [];
  ip = b'1' ∷ [];
  domain_id = pos 0;
  deleted = pos 0;
  created = pos 6;
  answers = good;
  device = seen (b'1' ∷ []);
  model = [];
  version = [];
  takes = [];
}

abbrev away : Surroundings
away = record home { interface = b'w' ∷ []; created = minus_one }

lost_transport_example :
    (s' : Agent Bytes) × (running setup away agent ≡ some (minus_one, none, [], s'))
    × (s'.transport ≡ null)
    × (running setup home s' ≡ none)
lost_transport_example = lost_transport setup away home agent (made good) refl refl refl refl
