-- ===== src/Session/Get.antt =====
-- `rmt_server_get_info` from the client of the server to the callbacks of every agent, and back.
use mathlib.Core.List.{Perm}
use rmt_library.Common.{
  length-map, ℕ, ◌<◌, ◌≡◌, refl, ap, some, List, [], ◌∷◌, Bytes, length, map, All, ◌∙◌, sym, arith,
}
use rmt_library.Strings.{tokens}
use rmt_library.Types.{Entry, Request, Reply, config_key_str_len, get}
use rmt_library.DataInfo as Info
use rmt_library.DataInfo.{Env, request, ask, finished, entry}
use rmt_library.DataInfo.Calls.{InTime}
use rmt_library.Agent.Queue.Fifo.{Holds}
use rmt_library.Agent.Info.{found_idx}
use rmt_library.Agent.Info.Get.{answers, get_reply_lem}
use rmt_library.Agent.Requests.{handle, reply_to}
use rmt_library.Server.{Server, get_info}
use rmt_library.Server.Api.{IsUp, get_info_up}
use rmt_library.Session.{Member, ids, exchange, sent_by, arrivals}
use rmt_library.Session.Exchange.{
  Handles, Became, exchange_lem, found_idx-map, All-indexed, sent_by_lem,
}
use rmt_library.Session.Delivery.{ask-Perm}

module _ {W : Type 0} where
  -- what the callbacks of an agent say to some keys, and the world behind them
  abbrev pub reading : Bytes → Member W → Bytes × W
  reading keys m = answers m.setup.data_funcs (tokens b';' keys) m.state.world

  -- the entry that a client reads for an agent
  abbrev pub read_entry : Bytes → Member W → Entry
  read_entry keys m = record { device_id = m.setup.my_id; value_list = some (reading keys m).0 }

  -- an agent with an empty queue whose answer is shorter than `CONFIG_KEY_STR_LEN`
  abbrev pub CanRead : Bytes → Member W → Type 0
  CanRead keys m = Holds m.state.queue [] × (length (reading keys m).0 < config_key_str_len)

  abbrev pub get_request : ℕ → Bytes → List (Member W) → Request
  get_request seq keys members = request get seq (ids members) keys

  get-Handles :
      (seq : ℕ) (keys : Bytes) (m : Member W) (id_list : List ℕ) (idx : ℕ)
      → CanRead keys m
      → found_idx m.setup.my_id id_list ≡ some idx
      → Handles (request get seq id_list keys) m ((reading keys m).0, [], (reading keys m).1)
  unfolding handle
  get-Handles seq keys m id_list idx h e = (
    h.0,
    (idx, e, rw (get_reply_lem m.setup.data_funcs keys m.state.world (omega (arith, h.1))) refl),
  )

  map-entry :
      (seq : ℕ) (keys : Bytes) (req : Request) (members : List (Member W))
      → All (CanRead keys) members
      → map entry (map (λ m. reply_to m.setup req (reading keys m).0 []) members)
        ≡ map (read_entry keys) members
  map-entry seq keys req [] h = refl
  map-entry seq keys req (m ∷ members) h = ground (arith, h.0.1, map-entry seq keys req members h.1)

  pub map_self : (members : List (Member W)) → map (λ m. m) members ≡ members
  map_self [] = refl
  map_self (m ∷ members) = ap (λ l. m ∷ l) (map_self members)

  pub get_exchange :
      (seq : ℕ) (keys : Bytes) (members : List (Member W))
      → All (CanRead keys) members
      → (after : List (Member W)) × (exchange (get_request seq keys members) members
          ≡ some (
            map
                (λ m. reply_to m.setup (get_request seq keys members) (reading keys m).0 [])
                members,
            after,
          ))
        × Became (map (λ m. m.setup) members) (map (λ m. (reading keys m).1) members) after
  get_exchange seq keys members h = rw (map_self members) at (
      exchange_lem (get_request seq keys members) (λ m. m)
        (λ m. ((reading keys m).0, [], (reading keys m).1)) members
        (All-indexed members
          (λ i m at p.
            let (idx, e) = found_idx-map (λ m. m.setup.my_id) members i at in
            get-Handles seq keys m (ids members) idx p e)
          h))

  -- `rmt_server_get_info` of a running server with a transport, for the IDs of some agents whose reply
  -- queues are empty and whose answers are shorter than 4096 bytes. Every agent answers in one update, with
  -- its callbacks called for the known keys in order. If DDS brings in the replies that the agents
  -- send as the answers to this request, in any order, and all rounds of the wait are in time, then
  -- the client gets exactly one entry for each agent, in some order: its ID, and the text of
  -- "key:value;" for each key that it knows.
  pub get_info_delivers :
      (env : Env) (keys : Bytes) (members : List (Member W)) (s : Server)
      → IsUp s
      → All (CanRead keys) members
      → InTime env
      → Perm
          (arrivals (get_request env.seq keys members) env.rounds)
          (sent_by (get_request env.seq keys members) members)
      → (l : List Entry) × (sent : List Reply) × (after : List (Member W)) × (get_info env
            (ids members)
            keys
            s
          ≡ some (some (get_request env.seq keys members, finished l), s))
        × Perm l (map (read_entry keys) members)
        × (exchange (get_request env.seq keys members) members ≡ some (sent, after))
        × Became (map (λ m. m.setup) members) (map (λ m. (reading keys m).1) members) after
  unfolding Info.get_info
  get_info_delivers env keys members s up h t p =
      let req = get_request env.seq keys members in
      let sent = map (λ m. reply_to m.setup req (reading keys m).0 []) members in
      let (after, e, b) = get_exchange env.seq keys members h in
      let (l, asked, q) =
        ask-Perm env req sent t
          (length-map (λ m. reply_to m.setup req (reading keys m).0 []) members
            ∙ sym (length-map (λ m. m.setup.my_id) members))
          (rw (sent_by_lem req members e) at p) in
      (
        l,
        sent,
        after,
        get_info_up env up (ids members) keys ∙ ap (λ r. some (some r, s)) asked,
        rw (map-entry env.seq keys req members h) at q,
        e,
        b,
      )
