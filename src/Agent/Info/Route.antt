-- ===== src/Agent/Info/Route.antt =====
-- Which device's list a SET request hands to an agent: the message that server/datainfo_server.c joins, and
-- the token that agent/datainfo_agent.c picks.
use rmt_library.Common.{
  ℕ, zero, suc, ◌≡◌, ◌≢◌, refl, some, List, [], ◌∷◌, Bytes, arith, All, get_elem?, map,
}
use rmt_library.Types.{DataInfo}
use rmt_library.Strings.{Free}
use rmt_library.Strings.Tokens.{tokens-joined, tokens-empty}
use rmt_library.DataInfo.Message.{joined}
use rmt_library.Agent.Info.{found_idx, pick_list}

-- A value list that can be told from its neighbours: it is not empty and holds no bar.
abbrev pub IsSeparable : DataInfo → Type 0
IsSeparable dev = (dev.value_list ≢ []) × Free b'|' dev.value_list

pub pick-joined :
    (devs : List DataInfo) (i : ℕ) {dev : DataInfo}
    → All IsSeparable devs
    → get_elem? devs i ≡ some dev
    → (rest : Bytes) × (pick_list i (joined devs) ≡ some (dev.value_list, some rest))
unfolding pick_list
pick-joined [] i a e = absurd (ground arith)
pick-joined (d ∷ devs) zero a e =
    (joined devs, rw (tokens-joined b'|' d.value_list (joined devs) a.0.0 a.0.1) (ground arith))
pick-joined (d ∷ devs) (suc i) a e =
    let (rest, p) = pick-joined devs i a.1 e in
    (rest, rw (tokens-joined b'|' d.value_list (joined devs) a.0.0 a.0.1) p)

found_idx-get_elem? :
    (my_id i : ℕ) (devs : List DataInfo)
    → found_idx my_id (map (λ dev. dev.device_id) devs) ≡ some i
    → (dev : DataInfo) × (get_elem? devs i ≡ some dev) × (dev.device_id ≡ my_id)
unfolding found_idx
found_idx-get_elem? my_id i [] e = absurd (ground arith)
found_idx-get_elem? my_id zero (d ∷ devs) e = (d, refl, ground arith)
found_idx-get_elem? my_id (suc i) (d ∷ devs) e = found_idx-get_elem? my_id i devs (ground arith)

-- If no value list of a request is empty or holds a bar, an agent that finds its ID in the request picks
-- exactly the value list that the server was given for that ID.
pub set_routed :
    (my_id i : ℕ) (devs : List DataInfo)
    → All IsSeparable devs
    → found_idx my_id (map (λ dev. dev.device_id) devs) ≡ some i
    → (dev : DataInfo) × (rest : Bytes) × (get_elem? devs i ≡ some dev)
      × (dev.device_id ≡ my_id)
      × (pick_list i (joined devs) ≡ some (dev.value_list, some rest))
set_routed my_id i devs a e =
    let (dev, at, same) = found_idx-get_elem? my_id i devs e in
    let (rest, p) = pick-joined devs i a at in (dev, rest, at, same, p)

-- `strtok` gives no token for an empty value list. So behind a first device with an empty list,
-- where the other lists are not empty and hold no bar, each agent picks the list of the device
-- after it.
pub set_misrouted :
    (empty : DataInfo) (devs : List DataInfo) (i : ℕ) {next : DataInfo}
    → empty.value_list ≡ []
    → All IsSeparable devs
    → get_elem? devs (suc i) ≡ some next
    → (rest : Bytes) × (pick_list (suc i) (joined (empty ∷ devs))
        ≡ some (next.value_list, some rest))
unfolding pick_list
set_misrouted empty devs i z a e =
    let (rest, p) = pick-joined devs (suc i) a e in
    (rest, rw (z, tokens-empty b'|' (joined devs)) p)
