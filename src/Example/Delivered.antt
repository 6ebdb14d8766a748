-- ===== src/Example/Delivered.antt =====
-- What the two commands of server/server_example.c that transfer a file print behind an agent that answers.
use mathlib.Core.Option
use rmt_library.Common.{
  ℕ, ◌-◌, ◌≤◌, ◌≡◌, refl, ◌∙◌, ap, sym, true, false, Option, none, some, List, [], ◌∷◌, Bytes,
  length, arith, All, ℤ,
}
use rmt_library.Types.{
  Request, Reply, import, export, TransferStatus, TransferResult, status_done, status_running,
  is_running,
}
use rmt_library.Config.{codes}
use rmt_library.Config.Words.{is_free_sound}
use rmt_library.DevInfo.Status.{Good}
use rmt_library.DataInfo.{Outcome, fault, finished}
use rmt_library.FileTransfer.{State, tick}
use rmt_library.FileTransfer.Marks.{last_from}
use rmt_library.FileTransfer.Complete.{IsKnown, taken_in}
use rmt_library.Server.{Server, Surroundings, get_result}
use rmt_library.Server.Api.{IsUp, send_begins, receive_begins}
use rmt_library.Server.Single.{turn_quiet, get_result-marked}
use rmt_library.Session.{Member, exchange, sent_by}
use rmt_library.Session.Exchange.{Became}
use rmt_library.Session.Files.{
  Job, CanImport, IsNamed, import_request, returned, send_file_delivers,
}
use rmt_library.Session.Fetch.{Source, CanExport, exported, fetch_request, recv_file_delivers}
use rmt_library.Example.{
  ◌>>=◌, or_fault, printed, sent_said, received_said, agent_id, file_content, wait_result,
  server_cmd_send_file, server_cmd_recv_file,
}
use rmt_library.Example.Wait.{wait_done, wait_turn}

-- A turn of the thread while the client waits: it takes no announcement, does not look at the interface, and comes in
-- time.
pub record IsQuiet (start : ℕ) (env : Surroundings) : Type 0 where
  pub none_new : env.devices ≡ []
  pub still : env.auto_detect_interface ≡ false
  pub in_time : env.now - start ≤ env.reply_timeout

-- the loop that is told "running", lets the thread make one turn, and then is told the end
wait_once :
    (env : Surroundings) {s : Server} {f : State} {r : TransferResult} {status : TransferStatus}
    {last : TransferResult}
    → get_result agent_id s ≡ some ((status_running, some r), s)
    → IsUp s
    → env.devices ≡ []
    → env.auto_detect_interface ≡ false
    → tick env.malloc_ok env.junk env.feed env.reply_timeout env.now s.files ≡ some f
    → get_result agent_id (record s { files = f })
      ≡ some ((status, some last), record s { files = f })
    → is_running status ≡ false
    → wait_result agent_id (env ∷ []) none s
      ≡ finished ((status, some last), record s { files = f })
wait_once env {s} {f} {r} {status} {last} runs up none_new still ticked told done =
    wait_turn agent_id env [] none s (record s { files = f }) runs refl
      (turn_quiet env up none_new still ticked)
    ∙ wait_done agent_id [] (some r) (record s { files = f }) told done

pub IsUp-with : {s : Server} (f : State) → IsUp s → IsUp (record s { files = f })
IsUp-with f up = record {
  transport = up.transport;
  there = up.there;
  running = up.running;
  fits = up.fits;
}

-- an agent that has the ID which is written into the client
abbrev pub with_id : {W : Type 0} → Member W → Member W
with_id m = record m { setup = record m.setup { my_id = agent_id } }

pub names-IsNamed : IsNamed (codes "custom_callback") (codes "myfile.txt")
names-IsNamed = record {
  callback_some = cc;
  callback_free = is_free_sound b';' (codes "custom_callback") refl;
  filename_some = cc;
  filename_free = is_free_sound b';' (codes "myfile.txt") refl;
  fits = omega arith;
}

-- what is printed of a text, if it is found
text_then {ℓ} :
    {B : Type ℓ} (text : Option Bytes) (f : Option Bytes → Outcome B)
    → (or_fault (Option.map some text) >>= f) ≡ elim text [ none ↦ fault | some t ↦ f (some t) ]
text_then none f = refl
text_then (some t) f = refl

-- a call leaves one server
one_server :
    {A : Type 0} {o : Option (A × Server)} {a b : A} (s : Server) {f g : State}
    → o ≡ some (a, record s { files = f })
    → o ≡ some (b, record s { files = g })
    → f ≡ g
one_server {A} {o} {a} {b} s {f} e e' = ap files_of (sym e ∙ e')
  where
    files_of : Option (A × Server) → State
    files_of none = f
    files_of (some r) = r.1.files

-- the request of the command "sendfile"
abbrev pub sent_request : ℕ → Request
sent_request seq =
    import_request (codes "custom_callback") (codes "myfile.txt") file_content seq (agent_id ∷ [])

module _ {W : Type 0} (seq now : ℕ) (env : Surroundings) (job : Job W) where
  abbrev pub agent_job : Job W
  agent_job = record job { member = with_id job.member }

  -- the integer that the agent's import function returns, and the world behind it
  abbrev pub import_result : ℤ × W
  import_result = returned (codes "custom_callback") (codes "myfile.txt") file_content agent_job

  -- The command "sendfile" on an idle server that is up, where the agent with the client's ID is known, has an empty
  -- reply queue, can store the file and has an import function for the client's callback, which returns an `int`: the
  -- agent stores the file and calls its function with it, in one update. If the thread then takes,
  -- in one quiet turn in time, one reply to the transfer, and this is what the agent has sent, then the
  -- command prints that the transfer is done, with exactly the integer that the function has
  -- returned.
  pub sendfile_prints :
      (s : Server)
      → IsUp s
      → Good s.files.registry
      → s.files.transfer.status ≡ 0
      → CanImport (codes "custom_callback") (codes "myfile.txt") file_content agent_job
      → IsKnown s.files.registry agent_id
      → IsQuiet now env
      → All
          (λ m. last_from m.device_id (taken_in import seq now (agent_id ∷ []) env.feed) ≡ some m)
          (sent_by (sent_request seq) (agent_job.member ∷ []))
      → length (taken_in import seq now (agent_id ∷ []) env.feed) ≡ 1
      → (s' : Server) × (sent : List Reply) × (after : List (Member W)) × (server_cmd_send_file seq
            now
            (env ∷ [])
            s
          ≡ finished (sent_said status_done import_result.0 ∷ [], s'))
        × (exchange (sent_request seq) (agent_job.member ∷ []) ≡ some (sent, after))
        × Became (agent_job.member.setup ∷ []) (import_result.1 ∷ []) after
  unfolding server_cmd_send_file
  sendfile_prints s up g idle can known quiet arrives one =
      let delivers =
        send_file_delivers env.malloc_ok env.junk seq now (length file_content) env.reply_timeout
          env.now (codes "custom_callback") (codes "myfile.txt") file_content (agent_job ∷ [])
          env.feed s up g idle names-IsNamed (omega arith) (can, tt) (known, tt) quiet.in_time
          arrives one in
      let (f, f', sent, after, begun, e, b, ticked, ended, results) = delivers in
      let (f₀, begun₀, good, marks, began) =
        send_begins seq now (length file_content) (agent_id ∷ []) (codes "custom_callback")
          (codes "myfile.txt") file_content s up.transport up.running up.there up.fits g idle
          (omega arith) (omega arith) in
      let same : f₀ ≡ f = one_server s begun₀ begun in
      let marked =
        get_result-marked agent_id (agent_id ∷ []) s.files.registry {s = record s { files = f₀ }}
          (IsUp-with f₀ up) good marks refl known in
      let waited =
        wait_once env (rw same at marked) (IsUp-with f up) quiet.none_new quiet.still ticked
          results.0 refl in
      (record s { files = f' }, sent, after, rw (begun, waited) refl, e, b)

module _ {W : Type 0} (seq now : ℕ) (env : Surroundings) (source : Source W) where
  abbrev pub agent_source : Source W
  agent_source = record source { member = with_id source.member }

  abbrev pub export_request : Request
  export_request = fetch_request (codes "custom_callback") (codes "myfile.txt") seq agent_source

  -- the integer that the agent's export function returns, and the world behind it
  abbrev pub export_result : ℤ × W
  export_result = exported (codes "custom_callback") (codes "myfile.txt") agent_source

  -- The command "recvfile" on an idle server that is up, where the agent with the client's ID is known, has an empty
  -- reply queue and has, for the client's callback, the file, with fewer than 2^31 bytes, and an export function that
  -- returns an `int`: the agent
  -- calls its function with the file, in one update. If the thread then takes, in one quiet turn in
  -- time, one reply to the transfer, and this is what the agent has sent, and there is memory for
  -- the file, then the command prints that the transfer is done, with exactly the integer that the
  -- function has returned, and the file up to its first zero byte; and a file without a zero byte
  -- is read behind its end.
  pub recvfile_prints :
      (s : Server)
      → IsUp s
      → Good s.files.registry
      → s.files.transfer.status ≡ 0
      → CanExport (codes "custom_callback") (codes "myfile.txt") agent_source
      → IsKnown s.files.registry agent_id
      → IsQuiet now env
      → env.malloc_ok (length source.content) ≡ true
      → All
          (λ m. last_from m.device_id (taken_in export seq now (agent_id ∷ []) env.feed) ≡ some m)
          (sent_by export_request (agent_source.member ∷ []))
      → length (taken_in export seq now (agent_id ∷ []) env.feed) ≡ 1
      → (s' : Server) × (sent : List Reply) × (after : List (Member W)) × (server_cmd_recv_file seq
            now
            (env ∷ [])
            s
          ≡ elim (printed source.content) [
            | none ↦ fault
            | some text ↦ finished (received_said status_done export_result.0 (some text) ∷ [], s')
          ])
        × (exchange export_request (agent_source.member ∷ []) ≡ some (sent, after))
        × Became (agent_source.member.setup ∷ []) (export_result.1 ∷ []) after
  unfolding server_cmd_recv_file
  recvfile_prints s up g idle can known quiet memory arrives one =
      let (f, f', after, begun, e, b, ticked, ended, result) =
        recv_file_delivers env.malloc_ok env.junk seq now env.reply_timeout env.now
          (codes "custom_callback") (codes "myfile.txt") agent_source env.feed s up g idle
          names-IsNamed can known quiet.in_time arrives one in
      let (f₀, begun₀, good, marks, began) =
        receive_begins seq now agent_id (codes "custom_callback") (codes "myfile.txt") s
          up.transport up.running up.there up.fits g idle (omega arith) in
      let same : f₀ ≡ f = one_server s begun₀ begun in
      let marked =
        get_result-marked agent_id (agent_id ∷ []) s.files.registry {s = record s { files = f₀ }}
          (IsUp-with f₀ up) good marks refl known in
      let waited =
        wait_once env (rw same at marked) (IsUp-with f up) quiet.none_new quiet.still ticked
          (rw memory at result) refl in
      (
        record s { files = f' },
        _,
        after,
        rw (begun, waited) (text_then (printed source.content) _),
        e,
        b,
      )
