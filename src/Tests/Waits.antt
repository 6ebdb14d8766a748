-- ===== src/Tests/Waits.antt =====
-- Runs of the requests of server/datainfo_server.c: two devices are asked for a value.
use rmt_library.Common.{ℕ, ◌≡◌, ◌≢◌, refl, true, some, List, [], ◌∷◌, Bytes, pos, arith}
use rmt_library.Types.{RequestType, set_same_value, set, DataInfo, Entry, Request, Reply, get}
use rmt_library.Transport.{Taken, try_recv_instance}
use rmt_library.DataInfo.{
  Env, get_info, set_info, set_info_with_same_value, request, answers, recv_reply, collect,
  finished, pending, fault, Round, set_message,
}
use rmt_library.DataInfo.Wait.{
  Returned, collect-Returned, collect_ends, collect_safe, collect_complete, collect_fault,
}
use rmt_library.DataInfo.Calls.{same_text_complete, set_info_complete}
use rmt_library.DataInfo.Message.{set_message_lem, set_message_fits}

abbrev req : Request
req = request get 42 (7 ∷ 9 ∷ []) (b'k' ∷ [])

abbrev reply : ℕ → ℕ → Taken Reply
reply id seq = record {
  rc = pos 1;
  valid_data = true;
  sample = record { device_id = id; type = get; random_seq = seq; msg = b'v' ∷ []; binary = [] };
  publication_handle = 0;
}

abbrev info : ℕ → Entry
info id = record { device_id = id; value_list = some (b'v' ∷ []) }

-- an answer, an answer to another request, and an answer in a later round
abbrev rounds : List Round
rounds =
    record { takes = reply 9 42 ∷ reply 7 41 ∷ []; now = 11 }
    ∷ record { takes = reply 7 42 ∷ []; now = 12 }
    ∷ []

abbrev twice : Round
twice = record { takes = reply 9 42 ∷ reply 9 42 ∷ reply 7 42 ∷ []; now = 11 }

-- rounds without an answer, behind which the time is out
abbrev silent : List Round
silent = record { takes = reply 9 42 ∷ []; now = 11 } ∷ record { takes = []; now = 16 } ∷ []

collect_complete_test : collect req 2 10 5 10 rounds [] ≡ finished (info 9 ∷ info 7 ∷ [])
unfolding answers
collect_complete_test =
    collect_complete req 2 10 5 10 rounds [] (omega arith) (omega arith, (omega arith, tt)) refl

rounds_answer : collect req 2 10 5 10 rounds [] ≡ finished (info 9 ∷ info 7 ∷ [])
unfolding collect try_recv_instance recv_reply answers
rounds_answer = refl

collect-Returned_example : Returned req 2 10 5 10 rounds [] (info 9 ∷ info 7 ∷ [])
collect-Returned_example =
    collect-Returned req 2 10 5 10 rounds [] (info 9 ∷ info 7 ∷ []) (omega arith) rounds_answer

collect_ends_example : collect req 2 10 5 10 silent [] ≢ pending
collect_ends_example = collect_ends req 2 10 5 10 silent [] (omega arith) (omega arith)

collect_safe_test : collect req 2 10 5 10 silent [] ≢ fault
unfolding answers
collect_safe_test = collect_safe req 2 10 5 10 silent [] (omega arith)

collect_fault_example : collect req 2 10 5 10 (twice ∷ rounds) [] ≡ fault
unfolding answers
collect_fault_example =
    collect_fault req 2 10 5 10 twice rounds [] (omega arith) (omega arith) (omega arith)

abbrev devs : List DataInfo
devs =
    record { device_id = 7; value_list = b'k' ∷ (b':' ∷ (b'1' ∷ [])) }
    ∷ record { device_id = 9; value_list = b'k' ∷ (b':' ∷ (b'2' ∷ [])) }
    ∷ []

abbrev both_lists : Bytes
both_lists = b'k' ∷ (b':' ∷ (b'1' ∷ (b'|' ∷ (b'k' ∷ (b':' ∷ (b'2' ∷ (b'|' ∷ [])))))))

set_message_lem_example : set_message devs ≡ some both_lists
set_message_lem_example = set_message_lem devs

set_message_fits_test : set_message devs ≡ some both_lists
set_message_fits_test = set_message_fits devs (cc) (omega arith) (omega arith, (omega arith, tt))

abbrev reply_of : RequestType → ℕ → Taken Reply
reply_of type id = record (reply id 42) { sample = record (reply id 42).sample { type = type } }

-- one round in which a device answers to both kinds of request with the same number
abbrev env : Env
env = record {
  seq = 42;
  start_time = 10;
  reply_timeout = 5;
  rounds = record { takes = reply_of get 7 ∷ reply_of set_same_value 7 ∷ []; now = 11 } ∷ [];
}

same_text_complete_test :
    (get_info env (7 ∷ []) (b'k' ∷ [])
      ≡ (request get 42 (7 ∷ []) (b'k' ∷ []), finished (info 7 ∷ [])))
    × (set_info_with_same_value env (7 ∷ []) (b'k' ∷ [])
        ≡ (request set_same_value 42 (7 ∷ []) (b'k' ∷ []), finished (info 7 ∷ [])))
unfolding answers
same_text_complete_test = same_text_complete env (7 ∷ []) (b'k' ∷ []) (omega arith, tt) refl refl

abbrev set_env : Env
set_env = record env {
  rounds =
      record { takes = reply_of set 9 ∷ []; now = 11 }
      ∷ record { takes = reply_of set 7 ∷ []; now = 12 }
      ∷ [];
}

set_info_complete_test :
    set_info set_env devs
    ≡ some (request set 42 (7 ∷ 9 ∷ []) both_lists, finished (info 9 ∷ info 7 ∷ []))
unfolding answers
set_info_complete_test =
    set_info_complete set_env devs (cc) (omega arith) (omega arith, (omega arith, tt))
      (omega arith, (omega arith, tt)) refl
