-- ===== src/DataInfo/Calls.antt =====
-- The calls of server/datainfo_server.c that ask devices for an answer, from the request to the result.
use rmt_library.Common.{
  ◌<◌, ◌^◌, ◌-◌, ◌≤◌, ◌<◌, ◌≡◌, ◌≢◌, refl, ap, some, List, [], ◌∷◌, Bytes, length, map, All, arith,
  ℕ, suc,
}
use rmt_library.Types.{DataInfo, Request, get, set, set_same_value}
use rmt_library.DataInfo.{request, finished, Env, ask, get_info, set_info_with_same_value, set_info}
use rmt_library.DataInfo.Wait.{gathered, collect_complete}
use rmt_library.DataInfo.Message.{joined, set_message_fits}

-- every round of a call ends in time
abbrev pub InTime : Env → Type 0
InTime env = All (λ r. r.now - env.start_time ≤ env.reply_timeout) env.rounds

-- the answers that a call's rounds bring to its request are as many as the devices that it asks
abbrev pub Answered : Request → Env → Type 0
Answered req env = length (gathered req env.rounds) ≡ length req.id_list

pub ask_complete :
    (env : Env) (req : Request)
    → InTime env
    → Answered req env
    → ask env req ≡ (req, finished (gathered req env.rounds))
ask_complete env req t a =
    ap (λ o. (req, o))
      (collect_complete req (length req.id_list) env.start_time env.reply_timeout env.start_time
        env.rounds [] (omega arith) t (omega (arith, a)))

-- Both calls that send one text to all devices send it with the type of the call, the IDs in the given order and
-- the drawn sequence number. If the rounds are in time and bring in one answer for each ID, they
-- return these answers, in the order in which they came.
pub same_text_complete :
    (env : Env) (id_list : List ℕ) (text : Bytes)
    → InTime env
    → Answered (request get env.seq id_list text) env
    → Answered (request set_same_value env.seq id_list text) env
    → (get_info env id_list text ≡ (
      request get env.seq id_list text,
      finished (gathered (request get env.seq id_list text) env.rounds),
    ))
      × (set_info_with_same_value env id_list text ≡ (
        request set_same_value env.seq id_list text,
        finished (gathered (request set_same_value env.seq id_list text) env.rounds),
      ))
unfolding get_info set_info_with_same_value
same_text_complete env id_list text t a b = (
  ask_complete env (request get env.seq id_list text) t a,
  ask_complete env (request set_same_value env.seq id_list text) t b,
)

-- the request for the value lists of some devices
abbrev pub set_request : ℕ → List DataInfo → Request
set_request seq devs = request set seq (map (λ dev. dev.device_id) devs) (joined devs)

length-map : (devs : List DataInfo) → length (map (λ dev. dev.device_id) devs) ≡ length devs
length-map [] = refl
length-map (d ∷ devs) = ap suc (length-map devs)

-- lists that fit, of fewer than 2^21 devices, are joined and sent
pub set_info-ask :
    (env : Env) (devs : List DataInfo)
    → devs ≢ []
    → length devs < 2 ^ 21
    → All (λ dev. length dev.value_list < 1023) devs
    → set_info env devs ≡ some (ask env (set_request env.seq devs))
unfolding set_info
set_info-ask env devs ne few short = rw (set_message_fits devs ne few short) refl

-- A call that sets the values of one or more devices, fewer than 2^21, with each value list below 1023 bytes, sends the IDs in order
-- and the joined lists. If the rounds are in time and bring in one answer for each device, it returns these
-- answers, in the order in which they came.
pub set_info_complete :
    (env : Env) (devs : List DataInfo)
    → devs ≢ []
    → length devs < 2 ^ 21
    → All (λ dev. length dev.value_list < 1023) devs
    → InTime env
    → length (gathered (set_request env.seq devs) env.rounds) ≡ length devs
    → set_info env devs
      ≡ some (set_request env.seq devs, finished (gathered (set_request env.seq devs) env.rounds))
set_info_complete env devs ne few short t a =
    rw (set_info-ask env devs ne few short)
      (ap some (ask_complete env (set_request env.seq devs) t (omega (arith, a, length-map devs))))
