-- ===== src/Example/Wait.antt =====
-- The loop of server/server_example.c over `rmt_server_get_result`: when it ends.
use rmt_library.Common.{
  ℕ, ◌+◌, ◌-◌, ◌<◌, ◌≡◌, ◌⊎◌, ◌^◌, refl, ◌∙◌, ap, Bool, true, false, if◌then◌else◌, Option, none,
  some, List, [], ◌∷◌, length, ltb, arith, inl, inr, Bool-cases, All,
}
use rmt_library.Types.{RequestType, TransferStatus, TransferResult, is_running}
use rmt_library.DataInfo.{Outcome, finished}
use rmt_library.FileTransfer.Single.{waiting, FromDevice}
use rmt_library.FileTransfer.Size.{size}
use rmt_library.Server.{Server, stat_stop, Surroundings, turn, get_result}
use rmt_library.Server.Api.{IsUp}
use rmt_library.Server.Turn.{IsValid, IsHealthy}
use rmt_library.Server.Single.{turn-single, get_result-told, get_result-stopped}
use rmt_library.Example.{wait_result}

-- what the client holds behind a call
abbrev pub held_behind : Option TransferResult → Option TransferResult → Option TransferResult
held_behind held none = held
held_behind held (some r) = some r

-- in some turn the time of a transfer that began at `start` is out
abbrev pub some_late : ℕ → List Surroundings → Bool
some_late start [] = false
some_late start (env ∷ envs) =
    if ltb env.reply_timeout (env.now - start) then true else some_late start envs

-- the announcements of all turns
abbrev pub all_devices : List Surroundings → ℕ
all_devices [] = 0
all_devices (env ∷ envs) = length env.devices + all_devices envs

-- the loop ends at once where the device does not run
pub wait_done :
    (id : ℕ) (envs : List Surroundings) (held : Option TransferResult) (s : Server)
    {status : TransferStatus} {result : Option TransferResult}
    → get_result id s ≡ some ((status, result), s)
    → is_running status ≡ false
    → wait_result id envs held s ≡ finished ((status, held_behind held result), s)
unfolding wait_result
wait_done id [] held s e done = ground (arith, e, done)
wait_done id (env ∷ envs) held s e done = ground (arith, e, done)

pub wait_turn :
    (id : ℕ) (env : Surroundings) (envs : List Surroundings) (held : Option TransferResult)
    (s s' : Server) {status : TransferStatus} {result : Option TransferResult}
    → get_result id s ≡ some ((status, result), s)
    → is_running status ≡ true
    → turn env s ≡ some s'
    → wait_result id (env ∷ envs) held s ≡ wait_result id envs (held_behind held result) s'
unfolding wait_result
wait_turn id env envs held s s' e runs t = ground (arith, e, runs, t)

-- a result is held, or the server can give one
abbrev pub HasResult : Option TransferResult → Server → Type 0
HasResult held s = ((r : TransferResult) × (held ≡ some r)) ⊎ IsUp s

-- behind an answer the client holds a result
held_some :
    (held result : Option TransferResult) {s : Server}
    → HasResult held s
    → ((r : TransferResult) × (result ≡ some r)) ⊎ (s.status ≡ stat_stop)
    → (r : TransferResult) × (held_behind held result ≡ some r)
held_some held (some r) h a = (r, refl)
held_some held none (inl (r, e)) a = (r, e)
held_some held none (inr up) (inl (r, e)) = absurd (ground (arith, e))
held_some held none (inr up) (inr stop) = absurd (ground (arith, up.running, stop))

still_held :
    (held result : Option TransferResult) (r : TransferResult)
    → held ≡ some r
    → (r' : TransferResult) × (held_behind held result ≡ some r')
still_held held none r e = (r, e)
still_held held (some r') r e = (r', refl)

-- What the loop comes to in the end: a status other than "running" and a result, and a valid server.
abbrev pub Ended : Outcome ((TransferStatus × Option TransferResult) × Server) → Type 0
Ended o =
    (status : TransferStatus) × (result : TransferResult) × (s : Server) × (o
      ≡ finished ((status, some result), s))
    × (is_running status ≡ false)
    × IsValid s

module _ (type : RequestType) (seq start id : ℕ) where
  -- what a turn is answered while the client waits: DDS makes each entity for which there is memory, and every
  -- reply to the transfer that is taken comes from its device
  abbrev pub IsFair : Surroundings → Type 0
  IsFair env = IsHealthy env × FromDevice id (waiting type seq start id) env.feed

  -- A client that waits for a file transfer with one device, on a valid server that counts fewer than
  -- 2^64 calls, and that is up or has answered before, is not left waiting: whatever comes in, the loop ends with a status other than
  -- "running", and the server is still valid, if in one of the turns of the thread the time of
  -- the transfer is out, each reply to the transfer comes from the device, DDS makes each
  -- entity for which there is memory, and the devices with all announcements are fewer than
  -- 2^32. (The interface may change, and the server may stop or start anew.)
  pub wait_result_ends :
      (envs : List Surroundings) (held : Option TransferResult) {s : Server}
      → All IsFair envs
      → IsValid s
      → s.using_api < 2 ^ 64
      → size s.files + all_devices envs < 2 ^ 32
      → s.files.transfer ≡ waiting type seq start id
      → some_late start envs ≡ true
      → HasResult held s
      → Ended (wait_result id envs held s)
  wait_result_ends [] held {s} fair v fits few w late has = absurd (ground (arith, late))
  wait_result_ends (env ∷ envs) held {s} fair v fits few w late has =
      let (status, result, e, told, heard) = get_result-told id v fits in
      let (r, holds) = held_some held result has heard in
      elim (Bool-cases (is_running status)) [
        | inr done ↦ (
          status,
          r,
          s,
          wait_done id (env ∷ envs) held s e done ∙ ap (λ h. finished ((status, h), s)) holds,
          done,
          v,
        )
        | inl runs ↦
            let (up, marked) = told runs in
            let (s', t, v', api, n, out) =
              turn-single env type seq start id fair.0.0 v up (omega (arith, few)) w fair.0.1 in
            let onward = wait_turn id env envs held s s' e runs t in
            let fits' : s'.using_api < 2 ^ 64 = omega (arith, api, fits) in
            elim out [
              | inl (waits, early) ↦ rw onward (
                  wait_result_ends envs (held_behind held result) fair.1 v' fits'
                    (omega (arith, n, few)) waits (ground (arith, late, early)) (inl (r, holds)))
              | inr stopped ↦
                  let (last, answer, f, done) = get_result-stopped id v' fits' stopped in
                  let (r', holds') = still_held (held_behind held result) answer r holds in
                  (
                    last,
                    r',
                    s',
                    onward
                        ∙ wait_done id envs (held_behind held result) s' f done
                        ∙ ap (λ h. finished ((last, h), s')) holds',
                    done,
                    v',
                  )
            ]
      ]
