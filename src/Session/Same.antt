-- ===== src/Session/Same.antt =====
-- `rmt_server_set_info_with_same_value` from the client of the server to the callbacks of every agent, and back.
use mathlib.Core.List.{Perm}
use rmt_library.Common.{
  length-map, ℕ, ◌<◌, ◌≡◌, refl, ap, some, none, List, [], ◌∷◌, Bytes, length, map, All, ◌∙◌, sym,
  arith,
}
use rmt_library.Types.{Entry, Request, Reply, set_same_value}
use rmt_library.DataInfo as Info
use rmt_library.DataInfo.{Env, request, finished, entry}
use rmt_library.DataInfo.Calls.{InTime}
use rmt_library.Agent.Queue.Fifo.{Holds}
use rmt_library.Agent.Info.{found_idx}
use rmt_library.Agent.Info.Set.{IsPair, encode, results, flatten, set_reply-encode}
use rmt_library.Agent.Requests.{handle, reply_to}
use rmt_library.Server.{Server, set_info_with_same_value}
use rmt_library.Server.Api.{IsUp, set_info_with_same_value_up}
use rmt_library.Session.{Member, ids, exchange, sent_by, arrivals}
use rmt_library.Session.Exchange.{
  Handles, Became, exchange_lem, found_idx-map, All-indexed, sent_by_lem,
}
use rmt_library.Session.Delivery.{ask-Perm}
use rmt_library.Session.Get.{map_self}

module _ {W : Type 0} (pairs : List (Bytes × Bytes)) where
  -- what the set functions of an agent make of the pairs: the result lines and the world behind them
  abbrev pub writing : Member W → List Bytes × W
  writing m = results m.setup.data_funcs pairs m.state.world

  abbrev pub lines : Member W → Bytes
  lines m = flatten (writing m).0

  -- the entry that the client gets back
  abbrev pub same_entry : Member W → Entry
  same_entry m = record { device_id = m.setup.my_id; value_list = some (lines m) }

  -- an agent with an empty queue, whose results fit its buffers
  abbrev pub CanWrite : Member W → Type 0
  CanWrite m =
      Holds m.state.queue [] × All (λ l. length l < 128) (writing m).0 × (length (lines m) < 1024)

  -- the request of the call
  abbrev pub same_request : ℕ → List (Member W) → Request
  same_request seq members = request set_same_value seq (ids members) (encode pairs)

  same-Handles :
      (seq : ℕ) (m : Member W) (id_list : List ℕ) (idx : ℕ)
      → All IsPair pairs
      → CanWrite m
      → found_idx m.setup.my_id id_list ≡ some idx
      → Handles (request set_same_value seq id_list (encode pairs)) m (lines m, [], (writing m).1)
  unfolding handle
  same-Handles seq m id_list idx p h e = (
    h.0,
    (idx, e, rw (set_reply-encode m.setup.data_funcs pairs none m.state.world p h.1 h.2) refl),
  )

  map-same_entry :
      (req : Request) (members : List (Member W))
      → All CanWrite members
      → map entry (map (λ m. reply_to m.setup req (lines m) []) members) ≡ map same_entry members
  map-same_entry req [] h = refl
  map-same_entry req (m ∷ members) h = ground (arith, h.0.2, map-same_entry req members h.1)

  pub same_exchange :
      (seq : ℕ) (members : List (Member W))
      → All IsPair pairs
      → All CanWrite members
      → (after : List (Member W)) × (exchange (same_request seq members) members
          ≡ some
              (map (λ m. reply_to m.setup (same_request seq members) (lines m) []) members, after))
        × Became (map (λ m. m.setup) members) (map (λ m. (writing m).1) members) after
  same_exchange seq members p h = rw (map_self members) at (
      exchange_lem (same_request seq members) (λ m. m) (λ m. (lines m, [], (writing m).1)) members
        (All-indexed members
          (λ i m at can.
            let (idx, e) = found_idx-map (λ m. m.setup.my_id) members i at in
            same-Handles seq m (ids members) idx p can e)
          h))

  -- `rmt_server_set_info_with_same_value` of a running server with a transport, for the IDs of some agents whose
  -- reply queues are empty, with a list of pairs that the format can carry. If at every agent each
  -- result line is below 128 bytes and the answer below 1024, then every agent calls its set
  -- functions, in one update, for exactly these pairs. If DDS brings in the replies that the agents
  -- send as the answers to this request, in any order, and all rounds of the wait are in time, then
  -- the client gets exactly one entry for each agent, in some order: its ID and the result lines of
  -- its calls.
  pub same_value_delivers :
      (env : Env) (members : List (Member W)) (s : Server)
      → IsUp s
      → All IsPair pairs
      → All CanWrite members
      → InTime env
      → Perm
          (arrivals (same_request env.seq members) env.rounds)
          (sent_by (same_request env.seq members) members)
      → (l : List Entry) × (sent : List Reply) × (after : List (Member W))
        × (set_info_with_same_value env (ids members) (encode pairs) s
            ≡ some (some (same_request env.seq members, finished l), s))
        × Perm l (map same_entry members)
        × (exchange (same_request env.seq members) members ≡ some (sent, after))
        × Became (map (λ m. m.setup) members) (map (λ m. (writing m).1) members) after
  unfolding Info.set_info_with_same_value
  same_value_delivers env members s up p h t arrive =
      let req = same_request env.seq members in
      let sent = map (λ m. reply_to m.setup req (lines m) []) members in
      let (after, e, b) = same_exchange env.seq members p h in
      let (l, asked, q) =
        ask-Perm env req sent t
          (length-map (λ m. reply_to m.setup req (lines m) []) members
            ∙ sym (length-map (λ m. m.setup.my_id) members))
          (rw (sent_by_lem req members e) at arrive) in
      (
        l,
        sent,
        after,
        set_info_with_same_value_up env up (ids members) (encode pairs)
            ∙ ap (λ r. some (some r, s)) asked,
        rw (map-same_entry req members h) at q,
        e,
        b,
      )
