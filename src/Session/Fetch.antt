-- ===== src/Session/Fetch.antt =====
-- `rmt_server_recv_file` from the client of the server to the export function of an agent, and the file back to the
-- client.
use rmt_library.Common.{
  ℕ, ◌-◌, ◌<◌, ◌≤◌, ◌≡◌, refl, ap, Bool, true, false, if◌then◌else◌, Option, none, some, List, [],
  ◌∷◌, ◌++◌, Bytes, length, ◌∙◌, pos, ℤ, print_int, ==_refl, All, take, take_all, arith, ◌%◌, ◌^◌,
  IsInt,
}
use rmt_library.Types.{
  Request, Reply, export, status_done, status_server_error, TransferStatus, TransferResult,
}
use rmt_library.Transport.{Taken}
use rmt_library.DevInfo.Status.{Good}
use rmt_library.FileTransfer.{State, tick, started}
use rmt_library.FileTransfer.Start.{recv_request}
use rmt_library.FileTransfer.Marks.{last_from}
use rmt_library.FileTransfer.Flow.{outcome-export}
use rmt_library.FileTransfer.Complete.{IsKnown, AllRunning-IsKnown, taken_in, tick_complete}
use rmt_library.Agent.Queue.Fifo.{Holds}
use rmt_library.Agent.Info.{found_idx}
use rmt_library.Agent.Files.{FileFunc, as_int, find_callback}
use rmt_library.Agent.Files.Names.{export_called}
use rmt_library.Agent.Requests.{handle, reply_to}
use rmt_library.Server.{Server, receive, get_result}
use rmt_library.Server.Api.{IsUp, receive_begins, get_result_up}
use rmt_library.Session.{Member, exchange, sent_by}
use rmt_library.Session.Exchange.{Became, exchange_lem, sent_by_lem}
use rmt_library.Session.Files.{IsNamed}

-- an agent, the entry that a file is fetched from, its path, its export function, and the content of the file
pub record Source (W : Type 0) : Type 0 where
  pub member : Member W
  pub entry : FileFunc W
  pub path : Bytes
  pub func : Option Bytes → Option Bytes → ℤ → W → ℤ × W
  pub content : Bytes

whole :
    (content : Bytes) → length content < 2 ^ 31 → take (length content % 2 ^ 32) content ≡ content
whole content h = take_all (length content % 2 ^ 32) content (omega (arith, h))

module _ {W : Type 0} (callback filename : Bytes) where
  -- An agent with an empty queue, and an entry with a path and an export function for the callback, under which the
  -- file stands, with fewer than 2^31 bytes; the function returns an `int`.
  pub record CanExport (j : Source W) : Type 0 where
    pub idle : Holds j.member.state.queue []
    pub found : find_callback (some callback) j.member.setup.file_funcs ≡ some (some j.entry)
    pub at : j.entry.path ≡ some j.path
    pub fits : length (j.path ++ (b'/' ∷ filename)) < 1024
    pub there :
        j.member.setup.disk.load (j.path ++ (b'/' ∷ filename)) j.member.state.world ≡ some j.content
    pub called : j.entry.export_func ≡ some j.func
    pub small : length j.content < 2 ^ 31
    pub int :
        IsInt
          (j.func
            (some filename)
            (some j.content)
            (as_int (length j.content))
            j.member.state.world).0

  -- what the export function returns, and the world behind it
  abbrev pub exported : Source W → ℤ × W
  exported j =
      j.func (some filename) (some j.content) (as_int (length j.content)) j.member.state.world

  abbrev pub fetch_request : ℕ → Source W → Request
  fetch_request seq j = recv_request seq j.member.setup.my_id callback filename

  abbrev pub fetch_reply : ℕ → Source W → Reply
  fetch_reply seq j =
      reply_to j.member.setup (fetch_request seq j) (print_int (exported j).0) j.content

  pub fetch_exchange :
      (seq : ℕ) (j : Source W)
      → IsNamed callback filename
      → CanExport j
      → (after : List (Member W)) × (exchange (fetch_request seq j) (j.member ∷ [])
          ≡ some (fetch_reply seq j ∷ [], after))
        × Became (j.member.setup ∷ []) ((exported j).1 ∷ []) after
  unfolding handle found_idx
  fetch_exchange seq j named can =
      exchange_lem (fetch_request seq j) (λ (x : Source W). x.member)
        (λ x. (print_int (exported x).0, x.content, (exported x).1)) (j ∷ [])
        (
          (
            can.idle,
            (
              0,
              rw (==_refl j.member.setup.my_id) refl,
              rw
                  (export_called j.member.setup.disk j.member.setup.file_funcs callback filename
                    j.path j.content j.member.state.world j.entry j.func named.callback_some
                    named.callback_free named.filename_some named.filename_free can.found can.at
                    can.fits can.there can.called)
                  (rw (whole j.content can.small) refl),
            ),
          ),
          tt,
        )

answer_if :
    (b : Bool) (x y : TransferStatus × TransferResult)
    → ◌≡◌ {A = TransferStatus × Option TransferResult}
        ((if b then x else y).0, some (if b then x else y).1)
        (if b then (x.0, some x.1) else (y.0, some y.1))
answer_if true x y = refl
answer_if false x y = refl

module _ {W : Type 0} (malloc_ok : ℕ → Bool) (junk : TransferResult) (seq now timeout later : ℕ)
    (callback filename : Bytes) (j : Source W) (feed : List (List (Taken Reply))) where
  -- `rmt_server_recv_file` of an idle running server with a transport, for a known device whose agent has an empty
  -- reply queue and, for the callback, an export function that returns an `int`, and a path under which the
  -- file stands, with fewer than 2^31 bytes;
  -- the two names are not empty, hold no semicolon and fit the request. The agent calls its function
  -- with the file, in one update. If DDS brings in one reply to this transfer, the one that the
  -- agent has sent, then the next call of the file transfer's function, in time, ends the transfer,
  -- and `rmt_server_get_result` gives exactly the integer that the export function has returned,
  -- with the bytes of the file and their number; or, if there is no memory for them, a server error
  -- and no file.
  pub recv_file_delivers :
      (s : Server) (up : IsUp s)
      → Good s.files.registry
      → s.files.transfer.status ≡ 0
      → IsNamed callback filename
      → CanExport callback filename j
      → IsKnown s.files.registry j.member.setup.my_id
      → later - now ≤ timeout
      → All
          (λ m.
            last_from m.device_id (taken_in export seq now (j.member.setup.my_id ∷ []) feed)
            ≡ some m)
          (sent_by (fetch_request callback filename seq j) (j.member ∷ []))
      → length (taken_in export seq now (j.member.setup.my_id ∷ []) feed) ≡ 1
      → (f f' : State) × (after : List (Member W)) × (receive seq now j.member.setup.my_id callback
            filename s
          ≡ some ((pos 0, some (fetch_request callback filename seq j)), record s { files = f }))
        × (exchange (fetch_request callback filename seq j) (j.member ∷ [])
            ≡ some (fetch_reply callback filename seq j ∷ [], after))
        × Became (j.member.setup ∷ []) ((exported callback filename j).1 ∷ []) after
        × (tick malloc_ok junk feed timeout later f ≡ some f')
        × (f'.transfer.status ≡ 0)
        × (get_result j.member.setup.my_id (record s { files = f' })
            ≡ some (
              if malloc_ok (length j.content)
                  then (
                    status_done,
                    some (record {
                      result = (exported callback filename j).0;
                      file = some j.content;
                      file_len = length j.content;
                    }),
                  )
                  else (
                    status_server_error,
                    some (record junk { result = (exported callback filename j).0; file = none }),
                  ),
              record s { files = f' },
            ))
  recv_file_delivers s up g idle named can known in_time last all =
      let id = j.member.setup.my_id in
      let reply = fetch_reply callback filename seq j in
      let (f, begun, good, marks, began) =
        receive_begins seq now id callback filename s up.transport up.running up.there up.fits g
          idle named.fits in
      let start : f
          ≡ record { registry = f.registry; transfer = started export seq now (id ∷ []) } =
        ap (λ t. let x : State = record { registry = f.registry; transfer = t } in x) began in
      let (after, e, b) = fetch_exchange callback filename seq j named can in
      let (f', ticked, ended, good', done) =
        tick_complete malloc_ok junk export seq now (id ∷ []) feed timeout later (reply ∷ [])
          f.registry good
          (AllRunning-IsKnown (id ∷ []) s.files.registry f.registry id marks known, tt)
          (rw (sent_by_lem (fetch_request callback filename seq j) (j.member ∷ []) e) at last) all
          in_time in
      let up' : IsUp (record s { files = f' }) = record {
        transport = up.transport;
        there = up.there;
        running = up.running;
        fits = up.fits;
      } in
      (
        f,
        f',
        after,
        begun,
        e,
        b,
        ap (tick malloc_ok junk feed timeout later) start ∙ ticked,
        ended,
        get_result_up id up' (
              done.0
              ∙ ap some (
                  outcome-export malloc_ok junk reply (exported callback filename j).0 refl refl
                    can.int))
            ∙ ap (λ r. some (r, record s { files = f' }))
                (answer_if (malloc_ok (length j.content))
                  (
                    status_done,
                    record {
                      result = (exported callback filename j).0;
                      file = some j.content;
                      file_len = length j.content;
                    },
                  )
                  (
                    status_server_error,
                    record junk { result = (exported callback filename j).0; file = none },
                  )),
      )
