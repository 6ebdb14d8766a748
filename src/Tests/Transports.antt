-- ===== src/Tests/Transports.antt =====
-- Runs of common/dds_transport.c: a reader with three samples, and transports that start, fail and stop.
use rmt_library.Common.{
  ℕ, ◌+◌, ◌≡◌, refl, true, false, Option, some, List, [], ◌∷◌, pos, negsuc, minus_one, arith,
}
use rmt_library.Transport.{
  config_init, Taken, dev_info, try_recv, Answers, Globals, live, freed, made, transport_init,
  server_init, deinit, send,
}
use rmt_library.Transport.Receive.{try_recv_lem}
use rmt_library.Transport.Life.{
  server_init_outcomes, deinit-server_init, domain_outlives, borrowed_domain, counted,
}

abbrev sample : ℕ → Taken ℕ
sample m = record { rc = pos 1; valid_data = true; sample = m; publication_handle = m + 100 }

abbrev failed : Taken ℕ
failed = record { rc = minus_one; valid_data = false; sample = 0; publication_handle = 0 }

abbrev note : ℕ → ℕ → List (ℕ × ℕ) → Option (List (ℕ × ℕ))
note m handle l = some ((m, handle) ∷ l)

try_recv_lem_test :
    try_recv dev_info note (sample 1 ∷ sample 2 ∷ failed ∷ sample 3 ∷ []) []
    ≡ some (minus_one, (2, 102) ∷ (1, 101) ∷ [], sample 3 ∷ [])
try_recv_lem_test = try_recv_lem dev_info note (sample 1 ∷ sample 2 ∷ failed ∷ sample 3 ∷ []) []

abbrev start : Globals
start = record { domain = pos 5; domain_id = pos 0; participant_num = 0 }

abbrev pub good : Answers
good = record {
  malloc_ok = true;
  participant = pos 1;
  topic = λ k. pos 2;
  reader = λ k. pos 3;
  writer = λ k. pos 4;
}

abbrev bad_topic : Answers
bad_topic = record good { topic = λ k. minus_one }

abbrev bad_reader : Answers
bad_reader = record good { reader = λ k. minus_one }

server_init_outcomes_test : server_init bad_reader start ≡ some (freed, counted start)
server_init_outcomes_test = server_init_outcomes bad_reader start

deinit-server_init_test :
    deinit (pos 0) (live (made good)) (counted start)
    ≡ some (pos 0, record start { domain = pos 0 })
unfolding send
deinit-server_init_test =
    deinit-server_init good (pos 0) start (counted start) (made good) (omega arith)
      (server_init_outcomes good start)

domain_outlives_test :
    deinit (pos 0) (live (made good)) (record start { participant_num = 2 })
    ≡ some (pos 0, record start { participant_num = 1 })
unfolding transport_init send
domain_outlives_test =
    domain_outlives bad_topic good (pos 0) start (counted start)
      (record start { participant_num = 2 }) (made good) freed refl refl refl refl refl
      (server_init_outcomes good (counted start))

-- the domain was there before: the code is -4
borrowed_domain_test :
    ((config_init (negsuc 3) (pos 8) start).0 ≡ pos 0)
    × (deinit
          (pos 0)
          (live (made good))
          (counted (record start { domain = negsuc 3; domain_id = pos 8 }))
        ≡ some (pos 0, record start { domain = negsuc 3; domain_id = pos 8 }))
unfolding config_init send
borrowed_domain_test =
    borrowed_domain good (pos 0) (negsuc 3) (pos 8) start
      (counted (record start { domain = negsuc 3; domain_id = pos 8 })) (made good) (omega arith)
      refl (server_init_outcomes good (record start { domain = negsuc 3; domain_id = pos 8 }))
