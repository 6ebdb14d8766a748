-- ===== src/Agent/Requests/Echo.antt =====
-- An answer of agent/datainfo_agent.c is one that server/datainfo_server.c takes for its request.
use rmt_library.Common.{◌≡◌, refl, true, ==_refl, Bytes}
use rmt_library.Types.{Request, RequestType, get, set, set_same_value, import, export, type_eq}
use rmt_library.DataInfo.{answers}
use rmt_library.Agent.Requests.{Setup, reply_to}

type_eq_refl : (t : RequestType) → type_eq t t ≡ true
type_eq_refl get = refl
type_eq_refl set = refl
type_eq_refl set_same_value = refl
type_eq_refl import = refl
type_eq_refl export = refl

pub reply_to-answers :
    {W : Type 0} (a : Setup W) (req : Request) (msg binary : Bytes)
    → answers req (reply_to a req msg binary) ≡ true
unfolding answers
reply_to-answers a req msg binary = rw (type_eq_refl req.type, ==_refl req.random_seq) refl
