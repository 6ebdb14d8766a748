-- ===== src/Tests/Views.antt =====
-- Runs of server/devinfo_server.c against a map, and two receives of the same device infos.
use mathlib.Core.List.Perm
use mathlib.Core.List.{Perm}
use rmt_library.Common.{
  ℕ, ◌/◌, ◌≡◌, refl, true, if◌then◌else◌, none, some, List, [], ◌∷◌, arith, length, pos,
}
use rmt_library.Types.{DeviceInfo, DeviceMsg, status_running, empty_result}
use rmt_library.Transport.{Taken}
use rmt_library.Transport.Receive.{stopped, stop_code}
use rmt_library.DevInfo.{Registry, init, get_status, status_of, list_devices}
use rmt_library.DevInfo.Inv.{Op, add, del, set_to, run, init-IsValid}
use rmt_library.DevInfo.Lookup.{lookup}
use rmt_library.DevInfo.Refine.{changed_all}
use rmt_library.DevInfo.Refine.Run.{run-refines}
use rmt_library.DevInfo.Order.{devices}
use rmt_library.Server.{update_devices}
use rmt_library.Server.Order.{updates_any_order}
use rmt_library.Tests.Registry.{robot, fresh}
use rmt_library.Tests.Transfers.{plenty}

-- the first device is lost and comes back under another handle
abbrev history : List Op
history =
    add fresh (robot 7) 70
    ∷ add fresh (robot 9) 90
    ∷ set_to 9 status_running empty_result
    ∷ del 70
    ∷ add fresh (robot 7) 71
    ∷ del 70
    ∷ []

run-refines_example :
    (s : Registry) × (run history init ≡ some s)
    × ((id : ℕ) → lookup id s ≡ changed_all history (λ j. none) id)
    × ((id : ℕ) → get_status id s ≡ some (status_of (changed_all history (λ j. none) id)))
run-refines_example =
    run-refines (λ handle. handle / 10) history (refl, (refl, (tt, (tt, (refl, (tt, tt))))))
      (omega arith)

abbrev taken : ℕ → ℕ → Taken DeviceMsg
taken id handle = record {
  rc = pos 1;
  valid_data = true;
  sample = robot id;
  publication_handle = handle;
}

-- the two device infos, in one order and in the other
abbrev first : List (Taken DeviceMsg)
first = taken 7 70 ∷ taken 9 90 ∷ []

abbrev second : List (Taken DeviceMsg)
second = taken 9 90 ∷ taken 7 70 ∷ []

updates_any_order_example :
    (s s' : Registry) × (l l' : List DeviceInfo) × (update_devices fresh first init
      ≡ some (stop_code (stopped first), s))
    × (update_devices fresh second init ≡ some (stop_code (stopped second), s'))
    × (devices s ≡ devices s')
    × (s.dev_num ≡ s'.dev_num)
    × (list_devices plenty s ≡ some (length l, if plenty (length l) then some l else none))
    × (list_devices plenty s' ≡ some (length l', if plenty (length l') then some l' else none))
    × Perm l l'
unfolding init
updates_any_order_example =
    updates_any_order plenty fresh first second (Perm.swap (taken 9 90) (taken 7 70) [])
      ((omega arith, tt), (tt, tt)) init-IsValid (omega arith)
