-- ===== src/Session/Files.antt =====
-- `rmt_server_send_file` from the client of the server to the import function of every agent, and the result back
-- to the client.
use rmt_library.Common.{
  length-map, ℕ, Bool, ◌+◌, ◌-◌, ◌%◌, ◌^◌, ◌<◌, ◌≤◌, ◌≡◌, ◌≢◌, refl, ap, Option, none, some, List,
  [], ◌∷◌, ◌++◌, Bytes, length, take, map, All, ◌∙◌, sym, pos, ℤ, print_int, IsInt,
}
use rmt_library.Strings.{Free}
use rmt_library.Types.{Request, Reply, import, status_done, TransferResult}
use rmt_library.Transport.{Taken}
use rmt_library.DevInfo.{get_status}
use rmt_library.DevInfo.Status.{Good}
use rmt_library.FileTransfer as Transfers
use rmt_library.FileTransfer.{State, tick, started}
use rmt_library.FileTransfer.Marks.{last_from}
use rmt_library.FileTransfer.Flow.{outcome-import}
use rmt_library.FileTransfer.Complete.{IsKnown, AllRunning-IsKnown, taken_in, tick_complete}
use rmt_library.Agent.Queue.Fifo.{Holds}
use rmt_library.Agent.Files.{FileFunc, as_int, find_callback}
use rmt_library.Agent.Files.Names.{stored, import_called}
use rmt_library.Agent.Requests.{handle, reply_to}
use rmt_library.Server.{Server, send, get_result}
use rmt_library.Server.Api.{IsUp, send_begins, get_result_up}
use rmt_library.Session.{Member, exchange, sent_by}
use rmt_library.Session.Exchange.{
  Became, exchange_lem, found_idx-map, All-indexed, sent_by_lem, All-map, All-of_map,
}

-- an agent, the entry that a file is sent to, its import function, and the world with the stored file
pub record Job (W : Type 0) : Type 0 where
  pub member : Member W
  pub entry : FileFunc W
  pub func : Option Bytes → Bytes → ℤ → W → ℤ × W
  pub world : W

abbrev pub job_ids : {W : Type 0} → List (Job W) → List ℕ
job_ids jobs = map (λ j. j.member.setup.my_id) jobs

-- what `rmt_server_get_result` answers for an agent whose import function has returned an integer
abbrev pub HasResult : ℕ → ℤ → Server → Type 0
HasResult id z s =
    get_result id s
    ≡ some ((status_done, some (record { result = z; file = none; file_len = 0 })), s)

-- two names that an agent can tell apart and that fit the request
pub record IsNamed (callback filename : Bytes) : Type 0 where
  pub callback_some : callback ≢ []
  pub callback_free : Free b';' callback
  pub filename_some : filename ≢ []
  pub filename_free : Free b';' filename
  pub fits : length callback + 1 + length filename < 1024

abbrev pub import_request : Bytes → Bytes → Bytes → ℕ → List ℕ → Request
import_request callback filename content seq id_list = record {
  id_list = id_list;
  type = import;
  random_seq = seq;
  msg = callback ++ (b';' ∷ filename);
  binary = content;
}

module _ {W : Type 0} (callback filename content : Bytes) where
  -- An agent with an empty queue and an import function for the callback, which can store the file; the function
  -- returns an `int`.
  pub record CanImport (j : Job W) : Type 0 where
    pub idle : Holds j.member.state.queue []
    pub found : find_callback (some callback) j.member.setup.file_funcs ≡ some (some j.entry)
    pub saved :
        stored j.member.setup.disk j.member.setup.file_funcs j.entry filename content
          j.member.state.world
        ≡ some j.world
    pub called : j.entry.import_func ≡ some j.func
    pub int : IsInt (j.func (some filename) content (as_int (length content)) j.world).0

  -- what the import function returns, and the world behind it
  abbrev pub returned : Job W → ℤ × W
  returned j = j.func (some filename) content (as_int (length content)) j.world

  abbrev pub reply_of : ℕ → List (Job W) → Job W → Reply
  reply_of seq jobs j =
      reply_to j.member.setup (import_request callback filename content seq (job_ids jobs))
        (print_int (returned j).0) []

  pub import_exchange :
      (seq : ℕ) (jobs : List (Job W))
      → IsNamed callback filename
      → All CanImport jobs
      → (after : List (Member W)) × (exchange
            (import_request callback filename content seq (job_ids jobs))
            (map (λ j. j.member) jobs)
          ≡ some (map (reply_of seq jobs) jobs, after))
        × Became (map (λ j. j.member.setup) jobs) (map (λ j. (returned j).1) jobs) after
  unfolding handle
  import_exchange seq jobs named can =
      exchange_lem (import_request callback filename content seq (job_ids jobs)) (λ j. j.member)
        (λ j. (print_int (returned j).0, [], (returned j).1)) jobs
        (All-indexed jobs
          (λ i j at c.
            let (idx, e) = found_idx-map (λ (j : Job W). j.member.setup.my_id) jobs i at in
            (
              c.idle,
              (
                idx,
                e,
                rw
                    (import_called j.member.setup.disk j.member.setup.file_funcs callback filename
                      content j.member.state.world j.world j.entry j.func named.callback_some
                      named.callback_free named.filename_some named.filename_free c.found c.saved
                      c.called)
                    refl,
              ),
            ))
          can)

-- the file that a request carries
abbrev pub sent_file : Bytes → ℕ → Bytes
sent_file file file_len = take (file_len % 2 ^ 32) file

module _ {W : Type 0} (malloc_ok : ℕ → Bool) (junk : TransferResult)
    (seq now file_len timeout later : ℕ) (callback filename file : Bytes) (jobs : List (Job W))
    (feed : List (List (Taken Reply))) where
  -- `rmt_server_send_file` of an idle running server with a transport, to the known devices of some
  -- agents whose reply queues are empty and which have an import function for the callback, which
  -- returns an `int`, and can store the file; the two names are not empty, hold no semicolon and fit the request, and the file has as many
  -- bytes as its given length modulo 2^32. Every agent stores so many bytes of it, and calls its function with them,
  -- and with their number as an `int`, in one update.
  -- If DDS brings in as replies to this transfer as many as there are agents, the last one of each
  -- device being what its agent has sent, then the next call of the file transfer's function, in
  -- time, ends the transfer, and `rmt_server_get_result` gives for every agent that the transfer is
  -- done, with exactly the integer that its import function has returned, and no file.
  pub send_file_delivers :
      (s : Server) (up : IsUp s)
      → Good s.files.registry
      → s.files.transfer.status ≡ 0
      → IsNamed callback filename
      → file_len % 2 ^ 32 ≤ length file
      → All (CanImport callback filename (sent_file file file_len)) jobs
      → All (λ j. IsKnown s.files.registry j.member.setup.my_id) jobs
      → later - now ≤ timeout
      → All
          (λ m. last_from m.device_id (taken_in import seq now (job_ids jobs) feed) ≡ some m)
          (sent_by
            (import_request callback filename (sent_file file file_len) seq (job_ids jobs))
            (map (λ j. j.member) jobs))
      → length (taken_in import seq now (job_ids jobs) feed) ≡ length jobs
      → (f f' : State) × (sent : List Reply) × (after : List (Member W)) × (send seq now
            (job_ids jobs)
            callback
            filename
            file
            file_len
            s
          ≡ some (
            (
              pos 0,
              some (import_request callback filename (sent_file file file_len) seq (job_ids jobs)),
            ),
            record s { files = f },
          ))
        × (exchange
              (import_request callback filename (sent_file file file_len) seq (job_ids jobs))
              (map (λ j. j.member) jobs)
            ≡ some (sent, after))
        × Became
            (map (λ j. j.member.setup) jobs)
            (map (λ j. (returned callback filename (sent_file file file_len) j).1) jobs)
            after
        × (tick malloc_ok junk feed timeout later f ≡ some f')
        × (f'.transfer.status ≡ 0)
        × All
            (λ j.
              HasResult j.member.setup.my_id
                (returned callback filename (sent_file file file_len) j).0
                (record s { files = f' }))
            jobs
  send_file_delivers s up g idle named enough can known in_time last all =
      let content = sent_file file file_len in
      let req = import_request callback filename content seq (job_ids jobs) in
      let (f, begun, good, marks, began) =
        send_begins seq now file_len (job_ids jobs) callback filename file s up.transport up.running
          up.there up.fits g idle named.fits enough in
      let start : f
          ≡ record { registry = f.registry; transfer = started import seq now (job_ids jobs) } =
        ap (λ t. let x : State = record { registry = f.registry; transfer = t } in x) began in
      let (after, e, b) = import_exchange callback filename content seq jobs named can in
      let sent = map (reply_of callback filename content seq jobs) jobs in
      let (f', ticked, ended, good', done) =
        tick_complete malloc_ok junk import seq now (job_ids jobs) feed timeout later sent
          f.registry good
          (All-map (λ (j : Job W). IsKnown s.files.registry j.member.setup.my_id)
            (λ (m : Reply). IsKnown f.registry m.device_id)
            (reply_of callback filename content seq jobs) jobs
            (λ j k.
              AllRunning-IsKnown (job_ids jobs) s.files.registry f.registry j.member.setup.my_id
                marks k)
            known)
          (rw (sent_by_lem req (map (λ j. j.member) jobs) e) at last)
          (all ∙ sym (length-map (λ (j : Job W). j.member.setup.my_id) jobs)) in_time in
      (
        f,
        f',
        sent,
        after,
        begun,
        e,
        b,
        ap (tick malloc_ok junk feed timeout later) start ∙ ticked,
        ended,
        All-of_map
            (λ (j : Job W).
              HasResult j.member.setup.my_id (returned callback filename content j).0
                (record s { files = f' }))
            (CanImport callback filename content)
            (λ (m : Reply).
              get_status m.device_id f'.registry ≡ some (Transfers.outcome malloc_ok junk m))
            (reply_of callback filename content seq jobs) jobs
            (λ j c p.
              get_result_up j.member.setup.my_id
                (record {
                  transport = up.transport;
                  there = up.there;
                  running = up.running;
                  fits = up.fits;
                })
                (p
                  ∙ ap some (
                      outcome-import malloc_ok junk (reply_of callback filename content seq jobs j)
                        (returned callback filename content j).0 refl refl c.int)))
            can done,
      )
