-- ===== src/Example/Search.antt =====
-- The default command of server/server_example.c: the devices that it prints, and what it prints of each agent.
use mathlib.Core.List.{Perm}
use mathlib.Core.Path.{subst}
use rmt_library.Transport.Receive.{stopped, stop_code}
use mathlib.Core.Logic.{∥∥₁_elim}
use rmt_library.Common.{
  ltb, All-Perm, Option-cases, inl, inr, none, ◌+◌, ◌<◌, ◌≡◌, ◌^◌, refl, ◌∙◌, ap, true, false, some,
  List, [], ◌∷◌, ◌++◌, Bytes, length, map, arith, All, ℤ, is_neg,
}
use rmt_library.Types.{Entry, Reply}
use rmt_library.Config.{codes}
use rmt_library.DevInfo.{Registry}
use rmt_library.DevInfo.Loops.{infos, length-infos}
use rmt_library.DevInfo.Status.{Good}
use rmt_library.DataInfo.{Env, finished}
use rmt_library.DataInfo.Calls.{InTime}
use rmt_library.Server.{Server, update_devices}
use rmt_library.Server.Api.{IsUp}
use rmt_library.Server.Listing.{create_device_list_run}
use rmt_library.Server.Turn.Poll.{update_devices-Good}
use rmt_library.Session.{Member, ids, exchange, sent_by, arrivals}
use rmt_library.Session.Exchange.{Became}
use rmt_library.Session.Get.{reading, read_entry, CanRead, get_request, get_info_delivers}
use rmt_library.Example.{
  Said, tried_said, Discovery, read_first, read_array, read_devices, listed, devices_said,
  entries_said, ids_of, server_cmd_search_and_get,
}
use rmt_library.Example.Delivered.{IsUp-with}

-- the loop over a whole array reads all of it
read_first_all {ℓ} : {A : Type ℓ} (l : List A) → read_first (length l) l ≡ some l
read_first_all [] = refl
read_first_all (x ∷ l) = rw (read_first_all l) refl

read_all {ℓ} : {A : Type ℓ} (l : List A) → read_array (length l) (some l) ≡ some l
read_all [] = refl
read_all (x ∷ l) = read_first_all (x ∷ l)

-- the devices that the command reads
listed_all :
    (d : Discovery) {s : Server} {r : Registry} {code : ℤ}
    → IsUp s
    → Good s.files.registry
    → length s.files.registry.dev_head + length d.takes < 2 ^ 31
    → update_devices d.fresh d.takes s.files.registry ≡ some (code, r)
    → is_neg code ≡ false
    → d.malloc_ok (length (infos r.dev_head)) ≡ true
    → listed d s ≡ finished (infos r.dev_head, record s { files = record s.files { registry = r } })
listed_all d {s} {r} {code} up g fits updated fine memory =
    let (r', e, g', n) = update_devices-Good d.fresh d.takes g (omega (arith, fits)) in
    let same : r' ≡ r = ground (arith, e, updated) in
    let stop : stop_code (stopped d.takes) ≡ code = ground (arith, e, updated) in
    let s' : Server = record s { files = record s.files { registry = r } } in
    let few : ltb (length (infos r.dev_head)) (2 ^ 31) ≡ true =
      ground (arith, n, fits, length-infos r.dev_head, same) in
    ap read_devices
      (create_device_list_run d.malloc_ok d.fresh d.takes up (subst Good same g') (rw stop updated))
    ∙ rw (stop, fine, memory, read_all (infos r.dev_head), few) refl

-- a text that ends in its array
abbrev HasText : Entry → Type 0
HasText e = (text : Bytes) × (e.value_list ≡ some text)

texts_said : (l : List Entry) → All HasText l → entries_said l ≡ none → ⊥
texts_said [] h e = ground (arith, e)
texts_said (x ∷ l) h e = elim (Option-cases (entries_said l)) [
  | inl f ↦ texts_said l h.1 f
  | inr (said, f) ↦ ground (arith, e, f, h.0.1)
]

read_entry-HasText :
    {W : Type 0} (keys : Bytes) (members : List (Member W))
    → All HasText (map (read_entry keys) members)
read_entry-HasText keys [] = tt
read_entry-HasText keys (m ∷ members) =
    (((reading keys m).0, refl), read_entry-HasText keys members)

all_said :
    {W : Type 0} (keys : Bytes) (members : List (Member W)) {l : List Entry}
    → Perm l (map (read_entry keys) members)
    → (said : List Said) × (entries_said l ≡ some said)
all_said keys members {l} q = elim (Option-cases (entries_said l)) [
  | inl e ↦ absurd (
      ∥∥₁_elim q (λ x y. absurd x)
        (λ p. texts_said l (All-Perm HasText p (read_entry-HasText keys members)) e))
  | inr said ↦ said
]

abbrev pub search_keys : Bytes
search_keys = codes "cpu;ram;hostname;wifi;"

-- The default command on a valid registry that stays below 2^31 devices of a server that is up, where the receive ends without an
-- error and there is memory for the array: it prints every device, newest first, and it asks exactly
-- these devices. If they are agents with empty reply queues and answers shorter than 4096 bytes,
-- then
-- every agent answers in one update; and if DDS brings in the replies that they send, in any order
-- and all in time, it prints their number and exactly one entry for each agent, in some order: its
-- ID, and the text of what it says to the four keys.
pub search_prints :
    {W : Type 0} (d : Discovery) (env : Env) (members : List (Member W)) (s : Server) (r : Registry)
    (code : ℤ)
    → IsUp s
    → Good s.files.registry
    → length s.files.registry.dev_head + length d.takes < 2 ^ 31
    → update_devices d.fresh d.takes s.files.registry ≡ some (code, r)
    → is_neg code ≡ false
    → d.malloc_ok (length (infos r.dev_head)) ≡ true
    → ids_of (infos r.dev_head) ≡ ids members
    → All (CanRead search_keys) members
    → InTime env
    → Perm
        (arrivals (get_request env.seq search_keys members) env.rounds)
        (sent_by (get_request env.seq search_keys members) members)
    → (l : List Entry) × (said : List Said) × (s' : Server) × (sent : List Reply) × (after : List
        (Member W))
      × (server_cmd_search_and_get d env s
          ≡ finished (devices_said 0 (infos r.dev_head) ++ (tried_said (length l) ∷ said), s'))
      × (entries_said l ≡ some said)
      × (s' ≡ record s { files = record s.files { registry = r } })
      × Perm l (map (read_entry search_keys) members)
      × (exchange (get_request env.seq search_keys members) members ≡ some (sent, after))
      × Became (map (λ m. m.setup) members) (map (λ m. (reading search_keys m).1) members) after
unfolding server_cmd_search_and_get
search_prints d env members s r code up g fits updated fine memory same can t p =
    let s' : Server = record s { files = record s.files { registry = r } } in
    let (l, sent, after, asked, q, e, b) =
      get_info_delivers env search_keys members s' (IsUp-with (record s.files { registry = r }) up)
        can t p in
    let (said, spoken) = all_said search_keys members q in
    (
      l,
      said,
      s',
      sent,
      after,
      rw (listed_all d up g fits updated fine memory, same, asked, spoken) refl,
      spoken,
      refl,
      q,
      e,
      b,
    )
