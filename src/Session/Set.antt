-- ===== src/Session/Set.antt =====
-- `rmt_server_set_info` and `rmt_server_set_info_with_same_value` from the client of the server to the callbacks
-- of every agent, and back.
use mathlib.Core.List.{Perm}
use rmt_library.Common.{
  length-map, ℕ, suc, ◌^◌, ◌<◌, ◌≡◌, ◌≢◌, refl, ap, some, List, [], ◌∷◌, Bytes, length, map, All,
  arith, get_elem?, ◌∙◌, sym, false, ◌==◌, zero,
}
use rmt_library.Types.{DataInfo, Entry, Request, Reply}
use rmt_library.DataInfo.{Env, finished, entry}
use rmt_library.DataInfo.Calls.{InTime, set_request, set_info-ask}
use rmt_library.Agent.Queue.Fifo.{Holds}
use rmt_library.Agent.Info.{found_idx}
use rmt_library.Agent.Info.Set.{IsPair, encode, results, flatten, set_reply-encode}
use rmt_library.Agent.Info.Route.{IsSeparable, pick-joined}
use rmt_library.Agent.Requests.{handle, reply_to}
use rmt_library.Server.{Server, set_info}
use rmt_library.Server.Api.{IsUp, set_info_up}
use rmt_library.Session.{Member, exchange, sent_by, arrivals}
use rmt_library.Session.Exchange.{Handles, Became, exchange_lem, All-indexed, sent_by_lem}
use rmt_library.Session.Delivery.{ask-Perm}

-- an agent, and the pairs of keys and values that a client writes to it
pub record Order (W : Type 0) : Type 0 where
  pub member : Member W
  pub pairs : List (Bytes × Bytes)

-- no ID is listed twice
abbrev pub Distinct : List ℕ → Type 0
Distinct [] = Unit
Distinct (id ∷ rest) = All (λ j. (j == id) ≡ false) rest × Distinct rest

module _ {W : Type 0} where
  -- what the set functions of an agent make of its pairs: the result lines and the world behind them
  abbrev pub outcome : Order W → List Bytes × W
  outcome o = results o.member.setup.data_funcs o.pairs o.member.state.world

  -- the `data_info` that the client passes
  abbrev pub dev : Order W → DataInfo
  dev o = record { device_id = o.member.setup.my_id; value_list = encode o.pairs }

  -- the entry that the client gets back
  abbrev pub result_entry : Order W → Entry
  result_entry o = record {
    device_id = o.member.setup.my_id;
    value_list = some (flatten (outcome o).0);
  }

  -- An agent with an empty queue, pairs that the format can carry (and no bar), a list that fits its share of the
  -- request, and results that fit the agent's buffers.
  pub record CanSet (o : Order W) : Type 0 where
    pub idle : Holds o.member.state.queue []
    pub separable : IsSeparable (dev o)
    pub pairs : All IsPair o.pairs
    pub fits : length (encode o.pairs) < 1023
    pub short : All (λ l. length l < 128) (outcome o).0
    pub room : length (flatten (outcome o).0) < 1024

  get_elem?-dev :
      (orders : List (Order W)) (i : ℕ) {o : Order W}
      → get_elem? orders i ≡ some o
      → get_elem? (map dev orders) i ≡ some (dev o)
  get_elem?-dev [] i e = absurd (ground arith)
  get_elem?-dev (x ∷ orders) zero e = ground (arith, e)
  get_elem?-dev (x ∷ orders) (suc i) e = get_elem?-dev orders i e

  map-dev :
      (orders : List (Order W))
      → map (λ d. d.device_id) (map dev orders) ≡ map (λ o. o.member.setup.my_id) orders
  map-dev [] = refl
  map-dev (o ∷ orders) = ap (λ l. o.member.setup.my_id ∷ l) (map-dev orders)

  devs-IsSeparable :
      (orders : List (Order W)) → All CanSet orders → All IsSeparable (map dev orders)
  devs-IsSeparable [] h = tt
  devs-IsSeparable (o ∷ orders) h = (h.0.separable, devs-IsSeparable orders h.1)

  devs-short :
      (orders : List (Order W))
      → All CanSet orders
      → All (λ d. length d.value_list < 1023) (map dev orders)
  devs-short [] h = tt
  devs-short (o ∷ orders) h = (h.0.fits, devs-short orders h.1)

  differs :
      (orders : List (Order W)) (i id : ℕ) {o : Order W}
      → All (λ j. (j == id) ≡ false) (map (λ o. o.member.setup.my_id) orders)
      → get_elem? orders i ≡ some o
      → (o.member.setup.my_id == id) ≡ false
  differs [] i id h e = absurd (ground arith)
  differs (x ∷ orders) zero id h e = ground (arith, h.0, e)
  differs (x ∷ orders) (suc i) id h e = differs orders i id h.1 e

  found_idx-Distinct :
      (orders : List (Order W)) (i : ℕ) {o : Order W}
      → Distinct (map (λ o. o.member.setup.my_id) orders)
      → get_elem? orders i ≡ some o
      → found_idx o.member.setup.my_id (map (λ o. o.member.setup.my_id) orders) ≡ some i
  unfolding found_idx
  found_idx-Distinct [] i d e = absurd (ground arith)
  found_idx-Distinct (x ∷ orders) zero d e = ground (arith, e)
  found_idx-Distinct (x ∷ orders) (suc i) d e =
      rw (differs orders i x.member.setup.my_id d.0 e, found_idx-Distinct orders i d.1 e) refl

  -- the request of the call
  abbrev pub request_to : ℕ → List (Order W) → Request
  request_to seq orders = set_request seq (map dev orders)

  set-Handles :
      (seq i : ℕ) (orders : List (Order W)) (o : Order W)
      → All CanSet orders
      → Distinct (map (λ o. o.member.setup.my_id) orders)
      → get_elem? orders i ≡ some o
      → CanSet o
      → Handles (request_to seq orders) o.member (flatten (outcome o).0, [], (outcome o).1)
  unfolding handle
  set-Handles seq i orders o all d at can =
      let (rest, picked) =
        pick-joined (map dev orders) i (devs-IsSeparable orders all) (get_elem?-dev orders i at) in
      (
        can.idle,
        (
          i,
          rw (map-dev orders) (found_idx-Distinct orders i d at),
          rw (picked, handle)
              (rw
                (set_reply-encode o.member.setup.data_funcs o.pairs (some rest) o.member.state.world
                  can.pairs can.short can.room)
                refl),
        ),
      )

  map-result_entry :
      (req : Request) (orders : List (Order W))
      → All CanSet orders
      → map entry (map (λ o. reply_to o.member.setup req (flatten (outcome o).0) []) orders)
        ≡ map result_entry orders
  map-result_entry req [] h = refl
  map-result_entry req (o ∷ orders) h = ground (arith, h.0.room, map-result_entry req orders h.1)

  dev-ne-nil : (orders : List (Order W)) → orders ≢ [] → map dev orders ≢ []
  dev-ne-nil [] ne = absurd (ne refl)
  dev-ne-nil (o ∷ orders) ne = cc

  pub set_exchange :
      (seq : ℕ) (orders : List (Order W))
      → Distinct (map (λ o. o.member.setup.my_id) orders)
      → All CanSet orders
      → (after : List (Member W)) × (exchange (request_to seq orders) (map (λ o. o.member) orders)
          ≡ some (
            map
                (λ o. reply_to o.member.setup (request_to seq orders) (flatten (outcome o).0) [])
                orders,
            after,
          ))
        × Became (map (λ o. o.member.setup) orders) (map (λ o. (outcome o).1) orders) after
  set_exchange seq orders d can =
      exchange_lem (request_to seq orders) (λ o. o.member)
        (λ o. (flatten (outcome o).0, [], (outcome o).1)) orders
        (All-indexed orders (λ i o at c. set-Handles seq i orders o can d at c) can)

  -- `rmt_server_set_info` of a running server with a transport, for one or more agents, fewer than 2^21, with different IDs and empty
  -- reply queues: if the value lists are pairs that the format can carry, without a bar, each list below 1023
  -- bytes, each result line below 128 and each answer below 1024, then every agent calls its set
  -- functions, in one update, for exactly the pairs that were written for it. If DDS brings in the
  -- replies that the agents send as the answers to this request, in any order, and all rounds of the
  -- wait are in time, then the client gets exactly one entry for each agent, in some order: its ID
  -- and the result lines of its calls.
  pub set_info_delivers :
      (env : Env) (orders : List (Order W)) (s : Server)
      → IsUp s
      → orders ≢ []
      → length orders < 2 ^ 21
      → Distinct (map (λ o. o.member.setup.my_id) orders)
      → All CanSet orders
      → InTime env
      → Perm
          (arrivals (request_to env.seq orders) env.rounds)
          (sent_by (request_to env.seq orders) (map (λ o. o.member) orders))
      → (l : List Entry) × (sent : List Reply) × (after : List (Member W)) × (set_info env
            (map dev orders)
            s
          ≡ some (some (request_to env.seq orders, finished l), s))
        × Perm l (map result_entry orders)
        × (exchange (request_to env.seq orders) (map (λ o. o.member) orders) ≡ some (sent, after))
        × Became (map (λ o. o.member.setup) orders) (map (λ o. (outcome o).1) orders) after
  set_info_delivers env orders s up ne few d can t p =
      let req = request_to env.seq orders in
      let sent = map (λ o. reply_to o.member.setup req (flatten (outcome o).0) []) orders in
      let (after, e, b) = set_exchange env.seq orders d can in
      let (l, asked, q) =
        ask-Perm env req sent t
          (length-map (λ o. reply_to o.member.setup req (flatten (outcome o).0) []) orders
            ∙ sym (length-map dev orders)
            ∙ sym (length-map (λ (x : DataInfo). x.device_id) (map dev orders)))
          (rw (sent_by_lem req (map (λ o. o.member) orders) e) at p) in
      (
        l,
        sent,
        after,
        set_info_up env up (map dev orders) (
            set_info-ask env (map dev orders) (dev-ne-nil orders ne)
              (omega (arith, few, length-map dev orders)) (devs-short orders can)
            ∙ ap some asked),
        rw (map-result_entry req orders can) at q,
        e,
        b,
      )
