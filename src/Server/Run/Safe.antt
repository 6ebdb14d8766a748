-- ===== src/Server/Run/Safe.antt =====
-- No run of server/rmt_server.c faults: the calls of clients, the turns of the receive thread and what the
-- listeners hear leave a valid server, in any order.
use mathlib.Core.Option
use mathlib.Core.Path.{subst}
use rmt_library.Common.{
  ◌%◌, ℕ, ◌+◌, ◌≤◌, ◌<◌, ◌≡◌, ◌≢◌, ◌⊎◌, ◌^◌, refl, Option, some, List, [], ◌∷◌, length, All, arith,
  inl, inr, ◌∙◌, ap, Option-cases, Bool, true, false, ℤ,
}
use rmt_library.Types.{Entry, Request, get, set_same_value}
use rmt_library.DevInfo.Status.{Good}
use rmt_library.DevInfo.Size.{hear-size, hear-IsValid}
use rmt_library.DevInfo.Lost.{hear}
use rmt_library.DevInfo.Lookup.{get_status-lookup}
use rmt_library.DataInfo as Info
use rmt_library.DataInfo.{Env, Outcome, fault, pending, finished, request, ask}
use rmt_library.DataInfo.Wait.{gathered, collect_safe}
use rmt_library.DataInfo.Calls.{set_request, set_info-ask}
use rmt_library.FileTransfer.{State, send_file, recv_file}
use rmt_library.FileTransfer.Tick as Tick
use rmt_library.FileTransfer.Run as Files
use rmt_library.FileTransfer.Size.{size, send_file-size, recv_file-size}
use rmt_library.Server.{
  Server, guarded, stat_stop, create_device_list, get_info, set_info, set_info_with_same_value,
  send, receive, get_result,
}
use rmt_library.Server.Api.{
  IsUp, stopped_or_IsUp, get_info_up, set_info_up, set_info_with_same_value_up, send_up, receive_up,
  get_result_up,
}
use rmt_library.Server.Listing.{create_device_list_run}
use rmt_library.Server.Turn.{IsValid, IsHealthy}
use rmt_library.Server.Turn.Poll.{update_devices-Good}
use rmt_library.Server.Change.{turn_keeps}
use rmt_library.Server.Run.{
  Event, thread, listener, list, query, write, write_same, export_file, fetch_file, ask_result,
  behind, step, run,
}

-- the announcements that an event may take in
abbrev pub announced : Event → ℕ
announced (thread env) = length env.devices
announced (list malloc_ok fresh takes) = length takes
announced _ = 0

abbrev pub all_announced : List Event → ℕ
all_announced [] = 0
all_announced (e ∷ events) = announced e + all_announced events

-- no more answers to a request than devices that it asks
abbrev pub NotTooMany : Env → Request → Type 0
NotTooMany env req = length (gathered req env.rounds) ≤ length req.id_list

-- What the code does not check: DDS makes each entity of a new transport for which there is memory, no request
-- gets more answers than it asks for, the value lists of a SET call are of one or more devices, fewer than 2^21, and
-- each below 1023 bytes, the names of a file transfer fit its message, and a file has as many bytes as are sent.
abbrev pub IsAllowed : Event → Type 0
IsAllowed (thread env) = IsHealthy env
IsAllowed (query env ids keys) = NotTooMany env (request get env.seq ids keys)
IsAllowed (write env devs) =
    (devs ≢ [])
    × (length devs < 2 ^ 21)
    × All (λ dev. length dev.value_list < 1023) devs
    × NotTooMany env (set_request env.seq devs)
IsAllowed (write_same env ids values) = NotTooMany env (request set_same_value env.seq ids values)
IsAllowed (export_file seq now ids callback filename file file_len) =
    (length callback + 1 + length filename < 1024) × (file_len % 2 ^ 32 ≤ length file)
IsAllowed (fetch_file seq now id callback filename) = length callback + 1 + length filename < 1024
IsAllowed _ = Unit

behind_safe :
    (req : Request) (o : Outcome (List Entry)) (s : Server)
    → o ≢ fault
    → behind (some (some (req, o), s)) ≡ some s
behind_safe req fault s ne = absurd (ne refl)
behind_safe req pending s ne = refl
behind_safe req (finished l) s ne = refl

-- a wait that gets no more answers than it asks for
ask_safe :
    (env : Env) (req : Request) (s : Server)
    → NotTooMany env req
    → behind (some (some (ask env req), s)) ≡ some s
ask_safe env req s few = behind_safe req _ s (
    collect_safe req (length req.id_list) env.start_time env.reply_timeout env.start_time env.rounds
      [] (omega (arith, few)))

-- what an event leaves: a valid server with the same count of the API, and at most as many devices more as were
-- announced
pub record Kept (e : Event) (s s' : Server) : Type 0 where
  pub valid : IsValid s'
  pub api : s'.using_api ≡ s.using_api
  pub devices : size s'.files ≤ size s.files + announced e

Kept-same : (e : Event) {s : Server} → IsValid s → Kept e s s
Kept-same e v = record { valid = v; api = refl; devices = omega arith }

Kept-files :
    (e : Event) {s : Server} {f : State}
    → IsValid s
    → Tick.IsValid f
    → size f ≤ size s.files + announced e
    → Kept e s (record s { files = f })
Kept-files e v f n = record {
  valid = record { files = f; transport = v.transport };
  api = refl;
  devices = n;
}

list-Kept :
    (malloc_ok : _) (fresh : _) (takes : _) {s : Server}
    → IsValid s
    → IsUp s
    → size s.files + length takes < 2 ^ 32
    → (s' : Server) × (step (list malloc_ok fresh takes) s ≡ some s')
      × Kept (list malloc_ok fresh takes) s s'
unfolding step
list-Kept malloc_ok fresh takes {s} v up fits =
    let (r, e, g, n) = update_devices-Good fresh takes v.files.registry fits in
    (
      record s { files = record s.files { registry = r } },
      ap (Option.map (λ x. x.1)) (create_device_list_run malloc_ok fresh takes up g e),
      Kept-files (list malloc_ok fresh takes) v (record { registry = g; phase = v.files.phase }) n,
    )

-- a call that begins a transfer, or is refused while one runs
transfer-Kept :
    (e : Event) (f : Files.Event) {s : Server} (begin : Option (ℤ × Option Request × State))
    → IsValid s
    → IsUp s
    → Files.NamesFit f
    → Files.step f s.files ≡ Option.map (λ r. r.2) begin
    → ((r : _)
        → begin ≡ some r
        → (step e s ≡ some (record s { files = r.2 })) × (size r.2 ≡ size s.files))
    → (s' : Server) × (step e s ≡ some s') × Kept e s s'
transfer-Kept e f {s} begin v up fits same runs =
    let (f', stepped, valid) = Files.step-IsValid f fits v.files in
    elim (Option-cases begin) [
      | inl gone ↦ absurd (ground (arith, stepped, same, gone))
      | inr (r, b) ↦
          let (ran, n) = runs r b in
          let is : f' ≡ r.2 = ground (arith, stepped, same, b) in
          (
            record s { files = r.2 },
            ran,
            Kept-files e v (subst Tick.IsValid is valid) (omega (arith, n)),
          )
    ]

abbrev is_call : Event → Bool
is_call (thread env) = false
is_call (listener e) = false
is_call _ = true

-- a stopped server refuses a call, and stays
stopped_step :
    (e : Event) {s : Server} → s.status ≡ stat_stop → is_call e ≡ true → step e s ≡ some s
unfolding step guarded create_device_list get_info set_info set_info_with_same_value send receive
    get_result
stopped_step (thread env) stop c = absurd (ground (arith, c))
stopped_step (listener e) stop c = absurd (ground (arith, c))
stopped_step (list malloc_ok fresh takes) stop c = rw stop refl
stopped_step (query env ids keys) stop c = rw stop refl
stopped_step (write env devs) stop c = rw stop refl
stopped_step (write_same env ids values) stop c = rw stop refl
stopped_step (export_file seq now ids callback filename file file_len) stop c = rw stop refl
stopped_step (fetch_file seq now id callback filename) stop c = rw stop refl
stopped_step (ask_result id) stop c = rw stop refl

-- one event
step-Kept :
    (e : Event) {s : Server}
    → IsAllowed e
    → IsValid s
    → (s.status ≡ stat_stop) ⊎ IsUp s
    → size s.files + announced e < 2 ^ 32
    → (s' : Server) × (step e s ≡ some s') × Kept e s s'
unfolding step Files.step
step-Kept (thread env) {s} healthy v either fits =
    let (s', e, v', api, n) = turn_keeps env s healthy v fits in
    (s', e, record { valid = v'; api = api; devices = n })
step-Kept (listener e) {s} allowed v either fits =
    let registry : Good (hear e s.files.registry) = record {
      valid = hear-IsValid e v.files.registry.valid;
      fits = omega (arith, hear-size e s.files.registry, v.files.registry.fits);
    } in
    (
      record s { files = record s.files { registry = hear e s.files.registry } },
      refl,
      Kept-files (listener e) v (record { registry = registry; phase = v.files.phase })
          (omega (arith, hear-size e s.files.registry)),
    )
step-Kept (list malloc_ok fresh takes) {s} allowed v (inr up) fits =
    list-Kept malloc_ok fresh takes v up fits
step-Kept (query env ids keys) {s} few v (inr up) fits =
    unfold Info.get_info in
    (
      s,
      ap behind (get_info_up env up ids keys) ∙ ask_safe env (request get env.seq ids keys) s few,
      Kept-same (query env ids keys) v,
    )
step-Kept (write env devs) {s} (ne, bound, short, few) v (inr up) fits = (
  s,
  ap behind (set_info_up env up devs (set_info-ask env devs ne bound short))
      ∙ ask_safe env (set_request env.seq devs) s few,
  Kept-same (write env devs) v,
)
step-Kept (write_same env ids values) {s} few v (inr up) fits =
    unfold Info.set_info_with_same_value in
    (
      s,
      ap behind (set_info_with_same_value_up env up ids values)
          ∙ ask_safe env (request set_same_value env.seq ids values) s few,
      Kept-same (write_same env ids values) v,
    )
step-Kept (export_file seq now ids callback filename file file_len) {s} short v (inr up) fits =
    transfer-Kept (export_file seq now ids callback filename file file_len)
      (Files.send seq now ids callback filename file file_len)
      (send_file seq now ids callback filename file file_len s.files) v up short refl
      (λ r b. (
        ap (Option.map (λ x. x.1)) (send_up seq now ids callback filename file file_len up b),
        send_file-size seq now ids callback filename file file_len s.files b,
      ))
step-Kept (fetch_file seq now id callback filename) {s} short v (inr up) fits =
    transfer-Kept (fetch_file seq now id callback filename)
      (Files.fetch seq now id callback filename) (recv_file seq now id callback filename s.files) v
      up short refl
      (λ r b. (
        ap (Option.map (λ x. x.1)) (receive_up seq now id callback filename up b),
        recv_file-size seq now id callback filename s.files b,
      ))
step-Kept (ask_result id) {s} allowed v (inr up) fits = (
  s,
  ap (Option.map (λ x. x.1))
      (get_result_up id up (get_status-lookup id v.files.registry.valid v.files.registry.fits)),
  Kept-same (ask_result id) v,
)
step-Kept e {s} allowed v (inl stop) fits = (s, stopped_step e stop refl, Kept-same e v)

-- From a valid server that counts fewer than 2^64 calls of the API, no sequence of calls of clients, turns of
-- the receive thread and notifications of the listeners follows a null or freed pointer or leaves a
-- buffer, whatever DDS, the memory, the clock and the interfaces answer, and each ends in a valid
-- server with the same count of calls: as long as DDS makes each entity for which there is memory, no
-- request gets more answers than it asks for, the value lists and the names of each call fit their
-- messages, a file that is sent has as many bytes as its length modulo 2^32, a SET call with several
-- values is for one device or more and fewer than 2^21, and the devices and all
-- announcements together are fewer than 2^32.
pub run_server-IsValid :
    (events : List Event) {s : Server}
    → All IsAllowed events
    → IsValid s
    → s.using_api < 2 ^ 64
    → size s.files + all_announced events < 2 ^ 32
    → (s' : Server) × (run events s ≡ some s') × IsValid s' × (s'.using_api ≡ s.using_api)
unfolding run
run_server-IsValid [] {s} allowed v fits few = (s, refl, v, refl)
run_server-IsValid (e ∷ events) {s} allowed v fits few =
    let (s₁, e₁, k) = step-Kept e allowed.0 v (stopped_or_IsUp s v fits) (omega (arith, few)) in
    let (s₂, e₂, v₂, same) =
      run_server-IsValid events allowed.1 k.valid (omega (arith, k.api, fits))
        (omega (arith, k.devices, few)) in
    (s₂, rw (e₁, run) e₂, v₂, same ∙ k.api)
