-- ===== src/Session/Delivery.antt =====
-- The replies on their way to server/datainfo_server.c: DDS brings in what was sent, in any order.
use mathlib.Core.List.{Perm}
use mathlib.Core.List.Perm
use rmt_library.Common.{
  length-Perm, length-map, map-append, ◌≡◌, refl, ap, List, [], ◌∷◌, length, map, arith, ◌∙◌,
}
use rmt_library.Types.{Entry, Request, Reply}
use rmt_library.Transport.{Taken}
use rmt_library.Transport.Receive.{samples}
use rmt_library.DataInfo.{Round, Env, entry, ask, finished}
use rmt_library.DataInfo.Replies.{entries}
use rmt_library.DataInfo.Wait.{gathered}
use rmt_library.DataInfo.Calls.{InTime, ask_complete}
use rmt_library.Session.{answering, arrivals}

entries-answering :
    (req : Request) (takes : List (Taken Reply))
    → entries req takes ≡ map entry (answering req takes)
entries-answering req [] = refl
entries-answering req (t ∷ takes) = ground (arith, entries-answering req takes)

gathered-arrivals :
    (req : Request) (rounds : List Round) → gathered req rounds ≡ map entry (arrivals req rounds)
gathered-arrivals req [] = refl
gathered-arrivals req (r ∷ rounds) =
    rw
      (
        entries-answering req (samples r.takes),
        gathered-arrivals req rounds,
        map-append entry (answering req (samples r.takes)) (arrivals req rounds),
      )
      refl

-- If DDS brings in as answers to a request, in any order, one reply for each ID, the call returns their entries.
pub ask-Perm :
    (env : Env) (req : Request) (sent : List Reply)
    → InTime env
    → length sent ≡ length req.id_list
    → Perm (arrivals req env.rounds) sent
    → (l : List Entry) × (ask env req ≡ (req, finished l)) × Perm l (map entry sent)
ask-Perm env req sent t n p = (
  gathered req env.rounds,
  ask_complete env req t (
      ap length (gathered-arrivals req env.rounds)
      ∙ length-map entry (arrivals req env.rounds)
      ∙ length-Perm p
      ∙ n),
  rw (gathered-arrivals req env.rounds) (Perm.map entry p),
)
