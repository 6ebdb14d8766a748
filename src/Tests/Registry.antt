-- ===== src/Tests/Registry.antt =====
-- Runs of server/devinfo_server.c: two agents register, and one is lost.
use mathlib.Core.Option
use rmt_library.Common.{
  true, ℕ, ◌≡◌, refl, some, List, [], ◌∷◌, arith, if◌then◌else◌, ◌==◌, pos, minus_one, none,
}
use rmt_library.Types.{DeviceMsg, status_done, status_running, status_agent_error, empty_result}
use rmt_library.DevInfo.{
  Node, Registry, init, fill, add_device, del_device, deinit, set_status, get_status, list_devices,
}
use rmt_library.Transport.Listen.{Liveliness, Subscription}
use rmt_library.DevInfo.Lost.{hear, liveliness, subscription, deletions, hear-run, registered_lost}
use rmt_library.DevInfo.Loops.{put_status}
use rmt_library.DevInfo.Inv.{
  IsValid, init-IsValid, add_device-IsValid, Op, add, del, del_by_robot, set_to, restart, run,
  run-IsValid, deinit-eq-init,
}
use rmt_library.DevInfo.Lookup.{
  lookup, lookup-add_device, lookup-del_device, get_status-lookup, set_status-lookup,
  list_devices-all, reregister_survives,
}

abbrev pub robot : ℕ → DeviceMsg
robot id = record {
  device_id = id;
  model = b'r' ∷ [];
  host = b'h' ∷ [];
  ip = b'1' ∷ [];
  mac = b'0' ∷ [];
  rmt_version = b'2' ∷ [];
  devinfo = b'a' ∷ (b'b' ∷ []);
}

-- a node as `malloc` returns it
abbrev pub fresh : Node
fresh = record {
  info = robot 0;
  agent_transfer_status = status_done;
  transfer_result = empty_result;
  internal_id = 0;
}

abbrev one : Registry
one = add_device fresh (robot 7) 70 init

abbrev two : Registry
two = add_device fresh (robot 9) 90 one

one-IsValid : IsValid one
one-IsValid = add_device-IsValid fresh (robot 7) 70 init-IsValid

two-IsValid : IsValid two
two-IsValid = add_device-IsValid fresh (robot 9) 90 one-IsValid

abbrev ops : List Op
ops =
    add fresh (robot 7) 70
    ∷ add fresh (robot 9) 90
    ∷ set_to 9 status_running empty_result
    ∷ del 70
    ∷ del_by_robot (b'b' ∷ [])
    ∷ restart
    ∷ []

run-IsValid_example : (s' : Registry) × (run ops init ≡ some s') × IsValid s'
run-IsValid_example = run-IsValid ops init-IsValid

deinit-eq-init_test : deinit two ≡ init
deinit-eq-init_test = deinit-eq-init two-IsValid

lookup-add_device_test : lookup 7 two ≡ lookup 7 one
lookup-add_device_test = lookup-add_device fresh (robot 9) 90 7 one

-- the same two devices, as a state that is written out
abbrev pub node : ℕ → ℕ → Node
node id handle = fill (robot id) handle fresh

abbrev pub both : Registry
both = record { dev_head = node 9 90 ∷ node 7 70 ∷ []; dev_num = 2 }

pub both-IsValid : IsValid both
both-IsValid = record { distinct = ((ground arith, tt), (tt, tt)); counted = refl }

lookup-del_device_test : lookup 9 (del_device 70 both) ≡ lookup 9 both
lookup-del_device_test = lookup-del_device 70 9 both-IsValid

get_status-lookup_test : get_status 5 both ≡ some (status_agent_error, empty_result)
unfolding lookup
get_status-lookup_test = get_status-lookup 5 both-IsValid (omega arith)

set_status-lookup_test :
    (s' : Registry) × (set_status 7 status_running empty_result both ≡ some (pos 0, s'))
    × ((j : ℕ)
        → lookup j s' ≡ (
            if 7 == j
            then Option.map (put_status status_running empty_result) (lookup j both)
            else lookup j both))
unfolding lookup
set_status-lookup_test = set_status-lookup 7 status_running empty_result both-IsValid (omega arith)

list_devices-all_test : list_devices (λ n. true) both ≡ some (2, some (robot 9 ∷ robot 7 ∷ []))
list_devices-all_test = list_devices-all (λ n. true) both-IsValid (omega arith)

reregister_survives_example :
    del_device 70 (add_device fresh (robot 7) 71 both) ≡ add_device fresh (robot 7) 71 both
reregister_survives_example =
    reregister_survives fresh (robot 7) 70 71 both-IsValid (ground arith)
      (ground arith, (ground arith, tt))

-- the publication of the second device is not alive, and a reader has lost it
abbrev dead : Liveliness
dead = record { not_alive_count = 1; last_publication_handle = 90 }

abbrev pub fewer : Subscription
fewer = record { current_count_change = minus_one; last_publication_handle = 90 }

registered_lost_example :
    (lookup 9 (hear (liveliness dead) (add_device fresh (robot 9) 90 both)) ≡ none)
    × (lookup 9 (hear (subscription fewer) (add_device fresh (robot 9) 90 both)) ≡ none)
registered_lost_example =
    registered_lost fresh (robot 9) 9 dead fewer both-IsValid
      (λ e. refl, (λ e. absurd (omega arith), tt)) refl (omega arith) refl

hear-run_test : run (deletions (liveliness dead)) both ≡ some (hear (liveliness dead) both)
hear-run_test = hear-run (liveliness dead) both
