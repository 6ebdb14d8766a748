-- ===== src/Tests/Transfers.antt =====
-- Runs of the file transfers of server/datainfo_server.c between two devices.
use rmt_library.Common.{
  ℕ, ◌≡◌, refl, Bool, true, false, some, none, List, [], ◌∷◌, pos, minus_one, arith, inl, inr, All,
  print_int,
}
use rmt_library.Types.{Reply, import, export, status_done, empty_result}
use rmt_library.Transport.{Taken}
use rmt_library.DevInfo.{get_status}
use rmt_library.DevInfo.Status.{Good}
use rmt_library.FileTransfer.{State, is_mine, started, recv_reply, send_file, recv_file, tick}
use rmt_library.FileTransfer.Receipt.{recv_reply_lem, status_for, result_for, counting}
use rmt_library.FileTransfer.Start.{
  busy_refused, send_file-Begins, recv_file-Begins, Begins, send_request, recv_request,
}
use rmt_library.FileTransfer.Run.{Event, send, fetch, poll, run, run_files-IsValid}
use rmt_library.FileTransfer.Tick.{IsValid, Ticked, tick-Ticked, tick-IsValid, tick_timeout}
use rmt_library.FileTransfer.Expire.{still_running}
use rmt_library.FileTransfer.Flow.{import_reported, export_reported}
use rmt_library.DevInfo.Status.{Marked}
use rmt_library.DevInfo.Lookup.{lookup}
use rmt_library.Tests.Registry.{both, both-IsValid, node}

abbrev pub registry-Good : Good both
registry-Good = record { valid = both-IsValid; fits = omega arith }

abbrev pub idle : State
idle = record {
  registry = both;
  transfer = record {
    status = 0;
    start_time = 0;
    type = import;
    random_seq = 0;
    id_list = none;
    id_num = 0;
    recv_num = 0;
  };
}

abbrev importing : State
importing = record { registry = both; transfer = started import 42 10 (7 ∷ 9 ∷ []) }

abbrev exporting : State
exporting = record { registry = both; transfer = started export 42 10 (9 ∷ []) }

abbrev pub plenty : ℕ → Bool
plenty n = true

-- the result of an import function, -1
abbrev imported : Reply
imported = record {
  device_id = 7;
  type = import;
  random_seq = 42;
  msg = print_int minus_one;
  binary = [];
}

abbrev exported : Reply
exported = record {
  device_id = 9;
  type = export;
  random_seq = 42;
  msg = print_int (pos 0);
  binary = 1 ∷ (2 ∷ []);
}

abbrev feed : List (List (Taken Reply))
feed =
    (record { rc = pos 1; valid_data = true; sample = imported; publication_handle = 0 } ∷ []) ∷ []

abbrev pub ids : List ℕ
ids = 7 ∷ 9 ∷ []

import_reported_test :
    (s' : State) × (recv_reply plenty empty_result imported importing ≡ some s')
    × (get_status 7 s'.registry
        ≡ some (status_done, record { result = minus_one; file = none; file_len = 0 }))
unfolding is_mine lookup
import_reported_test =
    import_reported plenty empty_result imported minus_one importing (node 7 70) registry-Good refl
      refl refl refl (omega arith)

export_reported_test :
    (s' : State) × (recv_reply plenty empty_result exported exporting ≡ some s')
    × (get_status 9 s'.registry
        ≡ some (status_done, record { result = pos 0; file = some (1 ∷ (2 ∷ [])); file_len = 2 }))
unfolding is_mine lookup
export_reported_test =
    export_reported plenty empty_result exported (pos 0) exporting (node 9 90) registry-Good refl
      refl refl refl (omega arith)

recv_reply_lem_test :
    (s' : State) × (recv_reply plenty empty_result imported importing ≡ some s')
    × (Marked 7
          (status_for plenty empty_result imported)
          (result_for plenty empty_result imported)
          both
          s'.registry
        × (s'.transfer ≡ counting importing.transfer 1))
unfolding is_mine
recv_reply_lem_test = recv_reply_lem plenty empty_result imported importing registry-Good

busy_refused_test :
    (send_file 43 11 ids (b'c' ∷ []) (b'f' ∷ []) (1 ∷ []) 1 importing
      ≡ some (minus_one, none, importing))
    × (recv_file 43 11 5 (b'c' ∷ []) (b'f' ∷ []) importing ≡ some (minus_one, none, importing))
busy_refused_test =
    busy_refused 43 11 5 1 ids (b'c' ∷ []) (b'f' ∷ []) (1 ∷ []) importing (ground arith)

send_file-Begins_test :
    Begins 11
      (send_request 43 ids (b'c' ∷ []) (b'f' ∷ []) (1 ∷ []) 1)
      idle
      (send_file 43 11 ids (b'c' ∷ []) (b'f' ∷ []) (1 ∷ []) 1 idle)
send_file-Begins_test =
    send_file-Begins 43 11 1 ids (b'c' ∷ []) (b'f' ∷ []) (1 ∷ []) idle registry-Good refl
      (omega arith) (omega arith)

recv_file-Begins_test :
    Begins 11
      (recv_request 43 9 (b'c' ∷ []) (b'f' ∷ []))
      idle
      (recv_file 43 11 9 (b'c' ∷ []) (b'f' ∷ []) idle)
recv_file-Begins_test =
    recv_file-Begins 43 11 9 (b'c' ∷ []) (b'f' ∷ []) idle registry-Good refl (omega arith)

tick-Ticked_example :
    (s' : State) × (tick plenty empty_result feed 60 12 importing ≡ some s')
    × Ticked plenty empty_result ids feed 60 12 importing s'
tick-Ticked_example =
    tick-Ticked plenty empty_result feed 60 12 ids importing registry-Good refl refl refl

importing-IsValid : IsValid importing
importing-IsValid = record { registry = registry-Good; phase = inr (refl, (ids, refl, refl)) }

tick-IsValid_test :
    (s' : State) × (tick plenty empty_result feed 60 12 importing ≡ some s') × IsValid s'
tick-IsValid_test = tick-IsValid plenty empty_result feed 60 12 importing-IsValid

tick_timeout_test :
    (s' : State) × (tick plenty empty_result feed 60 71 importing ≡ some s')
    × (s'.transfer.status ≡ 0)
    × All (λ id. still_running id s'.registry ≡ false) ids
tick_timeout_test =
    tick_timeout plenty empty_result feed 60 71 ids importing registry-Good refl refl refl
      (omega arith)

-- a transfer begins, a second is refused, a reply arrives, and the time runs out
abbrev events : List Event
events =
    send 42 10 ids (b'c' ∷ []) (b'f' ∷ []) (1 ∷ []) 1
    ∷ fetch 43 11 9 (b'c' ∷ []) (b'f' ∷ [])
    ∷ poll plenty empty_result feed 60 12
    ∷ poll plenty empty_result [] 60 99
    ∷ []

idle-IsValid : IsValid idle
idle-IsValid = record { registry = registry-Good; phase = inl refl }

run_files-IsValid_test : (s' : State) × (run events idle ≡ some s') × IsValid s'
run_files-IsValid_test =
    run_files-IsValid events (omega arith, (omega arith, (tt, (tt, tt)))) idle-IsValid
