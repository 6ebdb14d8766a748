-- ===== src/Server/Api.antt =====
-- The functions of the API in server/rmt_server.c: what a stopped server answers, and what a running one does.
use rmt_library.Common.{
  ◌≤◌, ◌⊎◌, ℤ, Bool, ℕ, ◌+◌, ◌-◌, ◌%◌, ◌<◌, ◌^◌, ◌≡◌, refl, Option, none, some, List, [], ◌∷◌,
  Bytes, length, pos, minus_one, arith, Option-cases, inl, inr,
}
use rmt_library.Types.{
  import, export, DeviceMsg, DataInfo, Entry, Request, TransferStatus, TransferResult,
  status_server_error, status_agent_error, empty_result,
}
use rmt_library.Transport.{Taken, Transport, live}
use rmt_library.DevInfo.{Node, get_status}
use rmt_library.DevInfo.Status.{Good}
use rmt_library.DevInfo.Lookup.{lookup, get_status-lookup}
use rmt_library.DataInfo as Info
use rmt_library.DataInfo.{Env, Outcome}
use rmt_library.FileTransfer.{State, started, send_file, recv_file}
use rmt_library.FileTransfer.Start.{
  send_file-Begins, recv_file-Begins, send_request, recv_request, AllRunning,
}
use rmt_library.Server.Turn.{IsValid}
use rmt_library.Server.{
  ServerStatus, Server, stat_stop, stat_running, guarded, create_device_list, get_info, set_info,
  set_info_with_same_value, send, receive, get_result,
}

-- A stopped server refuses every call: no devices, no answers, -1 or a server error, nothing is sent, and nothing
-- changes.
pub stopped_refused :
    (malloc_ok : ℕ → Bool) (fresh : Node) (takes : List (Taken DeviceMsg)) (env : Env)
    (ids : List ℕ) (devs : List DataInfo) (text name file : Bytes) (seq now id file_len : ℕ)
    (s : Server)
    → s.status ≡ stat_stop
    → (create_device_list malloc_ok fresh takes s ≡ some (some (0, none), s))
      × (get_info env ids text s ≡ some (none, s))
      × (set_info_with_same_value env ids text s ≡ some (none, s))
      × (set_info env devs s ≡ some (none, s))
      × (send seq now ids text name file file_len s ≡ some ((minus_one, none), s))
      × (receive seq now id text name s ≡ some ((minus_one, none), s))
      × (get_result id s ≡ some ((status_server_error, none), s))
unfolding guarded create_device_list get_info set_info set_info_with_same_value send receive
    get_result
stopped_refused malloc_ok fresh takes env ids devs text name file seq now id file_len s stopped = (
  rw stopped refl,
  rw stopped refl,
  rw stopped refl,
  rw stopped refl,
  rw stopped refl,
  rw stopped refl,
  rw stopped refl,
)

-- A call that a running server lets through gives what the callee gives, and leaves the counter as it was,
-- if the callee sees it raised and does not change it.
pub guarded_running {ℓ} :
    {A : Type ℓ} (refused a : A) (call : Server → Option (A × Server)) (s t : Server)
    → s.status ≡ stat_running
    → s.using_api < 2 ^ 64
    → call (record s { using_api = (s.using_api + 1) % 2 ^ 64 }) ≡ some (a, t)
    → t.using_api ≡ (s.using_api + 1) % 2 ^ 64
    → guarded refused call s ≡ some (a, record t { using_api = s.using_api })
unfolding guarded
guarded_running refused a call s t running fits e same =
    let back : (t.using_api + (2 ^ 64 - 1)) % 2 ^ 64 ≡ s.using_api = omega (arith, same, fits) in
    rw (e, back) (rw running refl)

-- a running server with a transport, and fewer than 2^64 counted calls
pub record IsUp (s : Server) : Type 0 where
  pub transport : Transport
  pub there : s.transport ≡ live transport
  pub running : s.status ≡ stat_running
  pub fits : s.using_api < 2 ^ 64

status_cases : (status : ServerStatus) → (status ≡ stat_stop) ⊎ (status ≡ stat_running)
status_cases stat_stop = inl refl
status_cases stat_running = inr refl

-- a valid server is stopped, or up
pub stopped_or_IsUp :
    (s : Server) → IsValid s → s.using_api < 2 ^ 64 → (s.status ≡ stat_stop) ⊎ IsUp s
stopped_or_IsUp s v fits = elim v.transport [
  | inl (gone, zero, stop) ↦ inl stop
  | inr (t, there, one) ↦ (elim (status_cases s.status) [
    | inl stop ↦ inl stop
    | inr runs ↦ inr (record { transport = t; there = there; running = runs; fits = fits })
  ])
]

-- A server that is up gives what server/datainfo_server.c answers, and is as before.
module _ (env : Env) {s : Server} (up : IsUp s) where
  pub get_info_up :
      (id_list : List ℕ) (text : Bytes)
      → get_info env id_list text s ≡ some (some (Info.get_info env id_list text), s)
  unfolding get_info
  get_info_up id_list text =
      guarded_running none (some (Info.get_info env id_list text)) _ s
        (record s { using_api = (s.using_api + 1) % 2 ^ 64 }) up.running up.fits
        (ground (arith, up.there)) refl

  pub set_info_with_same_value_up :
      (id_list : List ℕ) (text : Bytes)
      → set_info_with_same_value env id_list text s
        ≡ some (some (Info.set_info_with_same_value env id_list text), s)
  unfolding set_info_with_same_value
  set_info_with_same_value_up id_list text =
      guarded_running none (some (Info.set_info_with_same_value env id_list text)) _ s
        (record s { using_api = (s.using_api + 1) % 2 ^ 64 }) up.running up.fits
        (ground (arith, up.there)) refl

  pub set_info_up :
      (devs : List DataInfo) {r : Request × Outcome (List Entry)}
      → Info.set_info env devs ≡ some r
      → set_info env devs s ≡ some (some r, s)
  unfolding set_info
  set_info_up devs {r} e =
      guarded_running none (some r) _ s (record s { using_api = (s.using_api + 1) % 2 ^ 64 })
        up.running up.fits (ground (arith, up.there, e)) refl

-- A file transfer through the API of a running, idle server with a transport, a valid registry of
-- fewer than 2^32 devices, fewer than 2^64 counted calls and names that fit: the request goes out
-- with the file, every listed device is marked as running and no other entry changes, the transfer
-- waits for one reply from each device, and the rest of the server is as it was.
pub send_begins :
    (seq now file_len : ℕ) (ids : List ℕ) (callback filename file : Bytes) (s : Server)
    (t : Transport)
    → s.status ≡ stat_running
    → s.transport ≡ live t
    → s.using_api < 2 ^ 64
    → Good s.files.registry
    → s.files.transfer.status ≡ 0
    → length callback + 1 + length filename < 1024
    → file_len % 2 ^ 32 ≤ length file
    → (f : State) × (send seq now ids callback filename file file_len s
        ≡ some (
          (pos 0, some (send_request seq ids callback filename file file_len)),
          record s { files = f },
        ))
      × Good f.registry
      × AllRunning ids s.files.registry f.registry
      × (f.transfer ≡ started import seq now ids)
unfolding send
send_begins seq now file_len ids callback filename file s t running there fits g idle short enough =
    let (r, e, g', all) =
      send_file-Begins seq now file_len ids callback filename file s.files g idle short enough in
    (
      record { registry = r; transfer = started import seq now ids },
      guarded_running (minus_one, none)
          (pos 0, some (send_request seq ids callback filename file file_len)) _ s
          (record s {
            using_api = (s.using_api + 1) % 2 ^ 64;
            files = record { registry = r; transfer = started import seq now ids };
          })
          running fits (ground (arith, there, idle, e)) refl,
      g',
      all,
      refl,
    )

-- The same for a file that is fetched from one device.
pub receive_begins :
    (seq now id : ℕ) (callback filename : Bytes) (s : Server) (t : Transport)
    → s.status ≡ stat_running
    → s.transport ≡ live t
    → s.using_api < 2 ^ 64
    → Good s.files.registry
    → s.files.transfer.status ≡ 0
    → length callback + 1 + length filename < 1024
    → (f : State) × (receive seq now id callback filename s
        ≡ some ((pos 0, some (recv_request seq id callback filename)), record s { files = f }))
      × Good f.registry
      × AllRunning (id ∷ []) s.files.registry f.registry
      × (f.transfer ≡ started export seq now (id ∷ []))
unfolding receive
receive_begins seq now id callback filename s t running there fits g idle short =
    let (r, e, g', all) = recv_file-Begins seq now id callback filename s.files g idle short in
    (
      record { registry = r; transfer = started export seq now (id ∷ []) },
      guarded_running (minus_one, none) (pos 0, some (recv_request seq id callback filename)) _ s
          (record s {
            using_api = (s.using_api + 1) % 2 ^ 64;
            files = record { registry = r; transfer = started export seq now (id ∷ []) };
          })
          running fits (ground (arith, there, idle, e)) refl,
      g',
      all,
      refl,
    )

-- The result of a known device, through the API of a running server: the status and the result of its entry.
pub get_result_lem :
    (id : ℕ) (s : Server)
    → s.status ≡ stat_running
    → s.using_api < 2 ^ 64
    → Good s.files.registry
    → get_result id s
      ≡ some (
        elim (lookup id s.files.registry) [
          | none ↦ (status_agent_error, some empty_result)
          | some n ↦ (n.agent_transfer_status, some n.transfer_result)
        ],
        s,
      )
unfolding get_result
get_result_lem id s running fits g =
    guarded_running (status_server_error, none)
      (elim (lookup id s.files.registry) [
        | none ↦ (status_agent_error, some empty_result)
        | some n ↦ (n.agent_transfer_status, some n.transfer_result)
      ])
      _ s (record s { using_api = (s.using_api + 1) % 2 ^ 64 }) running fits
      (rw (get_status-lookup id g.valid g.fits) (elim (Option-cases (lookup id s.files.registry)) [
        | inl e ↦ rw e refl
        | inr (n, e) ↦ rw e refl
      ]))
      refl

-- the same through the status of the registry
pub get_result_up :
    (id : ℕ) {s : Server} (up : IsUp s) {r : TransferStatus × TransferResult}
    → get_status id s.files.registry ≡ some r
    → get_result id s ≡ some ((r.0, some r.1), s)
unfolding get_result
get_result_up id {s} up {r} e =
    guarded_running (status_server_error, none) (r.0, some r.1) _ s
      (record s { using_api = (s.using_api + 1) % 2 ^ 64 }) up.running up.fits (rw e refl) refl

-- the begin of a transfer, or its refusal while one runs, through a server that is up
pub send_up :
    (seq now : ℕ) (ids : List ℕ) (callback filename file : Bytes) (file_len : ℕ) {s : Server}
    (up : IsUp s) {r : ℤ × Option Request × State}
    → send_file seq now ids callback filename file file_len s.files ≡ some r
    → send seq now ids callback filename file file_len s
      ≡ some ((r.0, r.1), record s { files = r.2 })
unfolding send
send_up seq now ids callback filename file file_len {s} up {r} e =
    guarded_running (minus_one, none) (r.0, r.1) _ s
      (record s { using_api = (s.using_api + 1) % 2 ^ 64; files = r.2 }) up.running up.fits
      (ground (arith, up.there, e)) refl

pub receive_up :
    (seq now id : ℕ) (callback filename : Bytes) {s : Server} (up : IsUp s)
    {r : ℤ × Option Request × State}
    → recv_file seq now id callback filename s.files ≡ some r
    → receive seq now id callback filename s ≡ some ((r.0, r.1), record s { files = r.2 })
unfolding receive
receive_up seq now id callback filename {s} up {r} e =
    guarded_running (minus_one, none) (r.0, r.1) _ s
      (record s { using_api = (s.using_api + 1) % 2 ^ 64; files = r.2 }) up.running up.fits
      (ground (arith, up.there, e)) refl
