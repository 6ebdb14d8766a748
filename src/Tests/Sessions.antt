-- ===== src/Tests/Sessions.antt =====
-- Runs of the whole program: a server and two agents, whose replies arrive in the other order.
use mathlib.Core.List.{Perm}
use mathlib.Core.List.Perm
use rmt_library.Common.{
  ℕ, ◌≡◌, refl, true, print_ℕ, digits, some, List, [], ◌∷◌, Bytes, pos, arith, map, All, print_int,
}
use rmt_library.Types.{Entry, Reply}
use rmt_library.Transport.{Taken}
use rmt_library.DataInfo.{Env, answers, finished}
use rmt_library.Strings.{tokens_from, cut}
use rmt_library.Agent.Queue.{init}
use rmt_library.Agent.Queue.Fifo.{init-Holds}
use rmt_library.Agent.Info.{find_key, read_value}
use rmt_library.Agent.Info.Set.{encode, flatten}
use rmt_library.Agent.Requests.{reply_to}
use rmt_library.Server.{set_info_with_same_value, get_info, set_info}
use rmt_library.Session.{Member, exchange, sent_by, arrivals}
use rmt_library.Session.Exchange.{Became, sent_by_lem}
use rmt_library.Session.Get.{
  get_info_delivers, get_exchange, get_request, CanRead, read_entry, reading,
}
use rmt_library.Session.Set.{
  Order, CanSet, set_info_delivers, set_exchange, request_to, dev, result_entry, outcome,
}
use rmt_library.Tests.Agents.{setup, pair, pair-IsPair}
use rmt_library.Session.Same.{
  CanWrite, writing, lines, same_entry, same_request, same_exchange, same_value_delivers,
}
use rmt_library.Tests.Servers.{server, server-IsUp}

-- an agent whose world is one text
abbrev pub agent : ℕ → Bytes → Member Bytes
agent id w = record {
  setup = record setup { my_id = id };
  state = record { queue = init; world = w };
}

abbrev members : List (Member Bytes)
members = agent 7 (b'v' ∷ []) ∷ agent 9 (b'u' ∷ []) ∷ []

abbrev keys : Bytes
keys = b'k' ∷ []

abbrev pub taken_reply : Reply → Taken Reply
taken_reply m = record { rc = pos 1; valid_data = true; sample = m; publication_handle = 0 }

abbrev pub env_of : List Reply → Env
env_of replies = record {
  seq = 42;
  start_time = 10;
  reply_timeout = 5;
  rounds = record { takes = map taken_reply replies; now = 11 } ∷ [];
}

abbrev read_reply : Member Bytes → Reply
read_reply m = reply_to m.setup (get_request 42 keys members) (reading keys m).0 []

abbrev get_env : Env
get_env = env_of (read_reply (agent 9 (b'u' ∷ [])) ∷ read_reply (agent 7 (b'v' ∷ [])) ∷ [])

members-CanRead : All (CanRead keys) members
unfolding find_key read_value tokens_from cut
members-CanRead = ((init-Holds, omega arith), ((init-Holds, omega arith), tt))

get_arrive :
    Perm
      (arrivals (get_request 42 keys members) get_env.rounds)
      (sent_by (get_request 42 keys members) members)
unfolding answers
get_arrive =
    let (after, e, b) = get_exchange 42 keys members members-CanRead in
    rw (sent_by_lem (get_request 42 keys members) members e)
      (Perm.swap (read_reply (agent 7 (b'v' ∷ []))) (read_reply (agent 9 (b'u' ∷ []))) [])

get_info_delivers_example :
    (l : List Entry) × (sent : List Reply) × (after : List (Member Bytes)) × (get_info get_env
        (7 ∷ 9 ∷ [])
        keys
        server
      ≡ some (some (get_request 42 keys members, finished l), server))
    × Perm l (map (read_entry keys) members)
    × (exchange (get_request 42 keys members) members ≡ some (sent, after))
    × Became (map (λ m. m.setup) members) (map (λ m. (reading keys m).1) members) after
get_info_delivers_example =
    get_info_delivers get_env keys members server server-IsUp members-CanRead (omega arith, tt)
      get_arrive

abbrev orders : List (Order Bytes)
orders =
    record { member = agent 7 (b'v' ∷ []); pairs = pair ∷ [] }
    ∷ record { member = agent 9 (b'u' ∷ []); pairs = pair ∷ pair ∷ [] }
    ∷ []

orders-CanSet : All CanSet orders
unfolding find_key print_int print_ℕ digits
orders-CanSet = (
  record {
    idle = init-Holds;
    separable = ((cc), (refl, (refl, (refl, (refl, (refl, (refl, tt)))))));
    pairs = (pair-IsPair, tt);
    fits = omega arith;
    short = omega arith;
    room = omega arith;
  },
  (
    record {
      idle = init-Holds;
      separable = (
        (cc),
        (
          refl,
          (
            refl,
            (refl, (refl, (refl, (refl, (refl, (refl, (refl, (refl, (refl, (refl, tt)))))))))),
          ),
        ),
      );
      pairs = (pair-IsPair, (pair-IsPair, tt));
      fits = omega arith;
      short = omega arith;
      room = omega arith;
    },
    tt,
  ),
)

abbrev set_reply_of : Order Bytes → Reply
set_reply_of o = reply_to o.member.setup (request_to 42 orders) (flatten (outcome o).0) []

abbrev set_env : Env
set_env = env_of (
    set_reply_of (record { member = agent 9 (b'u' ∷ []); pairs = pair ∷ pair ∷ [] })
    ∷ set_reply_of (record { member = agent 7 (b'v' ∷ []); pairs = pair ∷ [] })
    ∷ [])

set_arrive :
    Perm
      (arrivals (request_to 42 orders) set_env.rounds)
      (sent_by (request_to 42 orders) (map (λ o. o.member) orders))
unfolding answers
set_arrive =
    let (after, e, b) = set_exchange 42 orders ((refl, tt), (tt, tt)) orders-CanSet in
    rw (sent_by_lem (request_to 42 orders) (map (λ o. o.member) orders) e) (
      Perm.swap (set_reply_of (record { member = agent 7 (b'v' ∷ []); pairs = pair ∷ [] }))
        (set_reply_of (record { member = agent 9 (b'u' ∷ []); pairs = pair ∷ pair ∷ [] })) [])

set_info_delivers_example :
    (l : List Entry) × (sent : List Reply) × (after : List (Member Bytes)) × (set_info set_env
        (map dev orders)
        server
      ≡ some (some (request_to 42 orders, finished l), server))
    × Perm l (map result_entry orders)
    × (exchange (request_to 42 orders) (map (λ o. o.member) orders) ≡ some (sent, after))
    × Became (map (λ o. o.member.setup) orders) (map (λ o. (outcome o).1) orders) after
set_info_delivers_example =
    set_info_delivers set_env orders server server-IsUp (cc) (omega arith) ((refl, tt), (tt, tt))
      orders-CanSet (omega arith, tt) set_arrive

-- both agents set one pair, and the replies arrive in the other order
abbrev pairs : List (Bytes × Bytes)
pairs = pair ∷ []

members-CanWrite : All (CanWrite pairs) members
unfolding find_key print_int print_ℕ digits
members-CanWrite = (
  (init-Holds, (omega arith, tt), omega arith),
  ((init-Holds, (omega arith, tt), omega arith), tt),
)

abbrev same_reply : Member Bytes → Reply
same_reply m = reply_to m.setup (same_request pairs 42 members) (lines pairs m) []

abbrev same_env : Env
same_env = env_of (same_reply (agent 9 (b'u' ∷ [])) ∷ same_reply (agent 7 (b'v' ∷ [])) ∷ [])

same_arrive :
    Perm
      (arrivals (same_request pairs 42 members) same_env.rounds)
      (sent_by (same_request pairs 42 members) members)
unfolding answers
same_arrive =
    let (after, e, b) = same_exchange pairs 42 members (pair-IsPair, tt) members-CanWrite in
    rw (sent_by_lem (same_request pairs 42 members) members e)
      (Perm.swap (same_reply (agent 7 (b'v' ∷ []))) (same_reply (agent 9 (b'u' ∷ []))) [])

same_value_delivers_example :
    (l : List Entry) × (sent : List Reply) × (after : List (Member Bytes))
    × (set_info_with_same_value same_env (7 ∷ 9 ∷ []) (encode pairs) server
        ≡ some (some (same_request pairs 42 members, finished l), server))
    × Perm l (map (same_entry pairs) members)
    × (exchange (same_request pairs 42 members) members ≡ some (sent, after))
    × Became (map (λ m. m.setup) members) (map (λ m. (writing pairs m).1) members) after
same_value_delivers_example =
    same_value_delivers pairs same_env members server server-IsUp (pair-IsPair, tt) members-CanWrite
      (omega arith, tt) same_arrive
