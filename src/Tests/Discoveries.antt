-- ===== src/Tests/Discoveries.antt =====
-- A run of the discovery: two agents publish what they see, and a client asks for the devices.
use rmt_library.Common.{ℕ, ◌+◌, ◌≡◌, refl, true, some, List, [], ◌∷◌, length, arith, All, pos}
use rmt_library.Types.{DeviceMsg}
use rmt_library.Transport.{Taken}
use rmt_library.Transport.Receive.{samples}
use rmt_library.DevInfo.{Registry}
use rmt_library.DevInfo.Ids.{ids, Distinct}
use rmt_library.DevInfo.Loops.{infos}
use rmt_library.Agent.Life as Life
use rmt_library.Agent.Life.{Device, message, update_info, get_device_info}
use rmt_library.Server.{create_device_list}
use rmt_library.Server.Listing.{find_info}
use rmt_library.Session.Discover.{Speaker, said, current_message, samples_of, device_list_current}
use rmt_library.Tests.Registry.{both, fresh}
use rmt_library.Tests.Transfers.{plenty, idle, registry-Good}
use rmt_library.Tests.Agents.{seen}
use rmt_library.Tests.Servers.{server, server-IsUp}

-- one agent sees an address twice, and then another one, and so publishes two messages
abbrev speaker : ℕ → List Device → Speaker
speaker id later = record {
  id = id;
  model = [];
  version = [];
  state = Life.init;
  first = seen (b'1' ∷ []);
  later = later;
}

abbrev speakers : List Speaker
speakers = speaker 9 (seen (b'1' ∷ []) ∷ seen (b'2' ∷ []) ∷ []) ∷ speaker 12 [] ∷ []

abbrev heard : DeviceMsg → Taken DeviceMsg
heard m = record {
  rc = pos 1;
  valid_data = true;
  sample = m;
  publication_handle = m.device_id + 80;
}

abbrev announced : List (Taken DeviceMsg)
announced =
    heard (message 9 [] [] (seen (b'1' ∷ [])))
    ∷ heard (message 12 [] [] (seen (b'1' ∷ [])))
    ∷ heard (message 9 [] [] (seen (b'2' ∷ [])))
    ∷ []

speakers_heard :
    All
      (λ a. (a.state.info_change ≡ true) × (samples_of a.id (samples announced) ≡ said a))
      speakers
unfolding update_info get_device_info Life.init
speakers_heard = ((refl, refl), ((refl, refl), tt))

device_list_current_example :
    (r : Registry) × (create_device_list plenty fresh announced server
      ≡ some (
        some (length (infos r.dev_head), some (infos r.dev_head)),
        record server { files = record idle { registry = r } },
      ))
    × All (λ a. find_info a.id (infos r.dev_head) ≡ some (current_message a)) speakers
    × Distinct (ids r.dev_head)
    × ((j : ℕ)
        → samples_of j (samples announced) ≡ []
        → find_info j (infos r.dev_head) ≡ find_info j (infos both.dev_head))
device_list_current_example =
    device_list_current plenty fresh announced speakers server-IsUp registry-Good (omega arith) refl
      speakers_heard
