-- ===== src/Session.antt =====
-- The whole program at work: a request of server/datainfo_server.c, one update of every agent
-- (agent/datainfo_agent.c) with that request in its reader, and the replies on their way back.
pub mod Exchange
pub mod Delivery
pub mod Get
pub mod Set
pub mod Files
pub mod Fetch
pub mod Same
pub mod Discover
use mathlib.Core.Option
use rmt_library.Common.{
  ℕ, true, Option, none, some, List, [], ◌∷◌, ◌++◌, Bytes, map, pos, if◌then◌else◌,
}
use rmt_library.Types.{Request, Reply}
use rmt_library.Transport.{Taken}
use rmt_library.Transport.Receive.{samples}
use rmt_library.DataInfo.{Round, answers}
use rmt_library.Agent.Requests.{Setup, State, update}

-- one agent of the network; the worlds of all agents have one type
pub record Member (W : Type 0) : Type 0 where
  pub setup : Setup W
  pub state : State W

-- a sample that DDS hands out
abbrev pub taken : Request → Taken Request
taken req = record { rc = pos 1; valid_data = true; sample = req; publication_handle = 0 }

module _ {W : Type 0} where
  abbrev pub ids : List (Member W) → List ℕ
  ids members = map (λ m. m.setup.my_id) members

  -- every agent finds the request in its reader and makes one update; all replies that they send, and
  -- the agents behind it
  unfoldable pub exchange : Request → List (Member W) → Option (List Reply × List (Member W))
  exchange req [] = some ([], [])
  exchange req (m ∷ members) = elim (update m.setup (taken req ∷ []) m.state) [
    | none ↦ none
    | some (out, s) ↦
        Option.map (λ r. (out ++ r.0, record m { state = s } ∷ r.1)) (exchange req members)
  ]

  abbrev pub sent_by : Request → List (Member W) → List Reply
  sent_by req members = elim (exchange req members) [ none ↦ [] | some (out, after) ↦ out ]

-- the answers to a request among the samples that some rounds of a wait take
abbrev pub answering : Request → List (Taken Reply) → List Reply
answering req [] = []
answering req (t ∷ takes) =
    if answers req t.sample then t.sample ∷ answering req takes else answering req takes

abbrev pub arrivals : Request → List Round → List Reply
arrivals req [] = []
arrivals req (r ∷ rounds) = answering req (samples r.takes) ++ arrivals req rounds
