-- ===== src/Session/Discover.antt =====
-- From what agents publish of their devices to the array that a client of the server gets.
use rmt_library.Common.{
  Bool, ℕ, ◌+◌, ◌<◌, ◌^◌, ◌≡◌, ◌==◌, refl, ap, ap₂, Bool-cases, true, false, Option, none, some,
  List, [], ◌∷◌, Bytes, length, All, is_neg, inl, inr, ◌∙◌, sym, if◌then◌else◌, Option-cases,
}
use rmt_library.Types.{DeviceMsg}
use rmt_library.Transport.{Taken}
use rmt_library.Transport.Receive.{samples, stopped, stop_code}
use rmt_library.DevInfo.{Node, Registry}
use rmt_library.DevInfo.Status.{Good}
use rmt_library.DevInfo.Ids.{ids, Distinct}
use rmt_library.DevInfo.Loops.{infos}
use rmt_library.Agent.Life.{Device, InfoState, message, same_device, update_info}
use rmt_library.Agent.Life.Publish.{
  update_info-now, update_info-settled, update_info-news, same_device_sound,
}
use rmt_library.Server.{Server, create_device_list}
use rmt_library.Server.Api.{IsUp}
use rmt_library.Server.Listing.{number_and_array, find_info, latest, create_device_list_up}

-- An agent that has not published yet, and what its updates see of its device: `first`, and then `later`.
pub record Speaker : Type 0 where
  pub id : ℕ
  pub model : Bytes
  pub version : Bytes
  pub state : InfoState
  pub first : Device
  pub later : List Device

-- the last thing seen
abbrev pub current : Device → List Device → Device
current d [] = d
current d (e ∷ later) = current e later

abbrev pub prepend : Option DeviceMsg → List DeviceMsg → List DeviceMsg
prepend none ms = ms
prepend (some m) ms = m ∷ ms

-- the messages of some updates
abbrev pub published : ℕ → Bytes → Bytes → List Device → InfoState → List DeviceMsg
published id model version [] s = []
published id model version (d ∷ ds) s =
    prepend (update_info id model version d s).0
      (published id model version ds (update_info id model version d s).1)

abbrev pub said : Speaker → List DeviceMsg
said a = published a.id a.model a.version (a.first ∷ a.later) a.state

-- the message about the last thing seen
abbrev pub current_message : Speaker → DeviceMsg
current_message a = message a.id a.model a.version (current a.first a.later)

-- the samples of a device, in order
abbrev pub samples_of : ℕ → List (Taken DeviceMsg) → List DeviceMsg
samples_of j [] = []
samples_of j (t ∷ ts) =
    if t.sample.device_id == j then t.sample ∷ samples_of j ts else samples_of j ts

-- the last message of a list, or the one before it
abbrev last_or : Option DeviceMsg → List DeviceMsg → Option DeviceMsg
last_or o [] = o
last_or o (m ∷ ms) = last_or (some m) ms

latest-samples_of :
    (j : ℕ) (o : Option DeviceMsg) (ts : List (Taken DeviceMsg))
    → last_or o (samples_of j ts) ≡ elim (latest j ts) [ none ↦ o | some m ↦ some m ]
latest-samples_of j o [] = refl
latest-samples_of j o (t ∷ ts) = elim (Bool-cases (t.sample.device_id == j)) [
  | inl mine ↦ rw mine (
      latest-samples_of j (some t.sample) ts ∙ elim (Option-cases (latest j ts)) [
        | inl gone ↦ rw gone (rw mine refl)
        | inr (m, e) ↦ rw e refl
      ])
  | inr other ↦ rw other (
      latest-samples_of j o ts ∙ elim (Option-cases (latest j ts)) [
        | inl gone ↦ rw gone (rw other refl)
        | inr (m, e) ↦ rw e refl
      ])
]

published-step :
    (id : ℕ) (model version : Bytes) (d : Device) (ds : List Device) (s s' : InfoState)
    {m : Option DeviceMsg}
    → (update_info id model version d s).0 ≡ m
    → (update_info id model version d s).1 ≡ s'
    → published id model version (d ∷ ds) s ≡ prepend m (published id model version ds s')
published-step id model version d ds s s' e f =
    ap₂ (λ m x. prepend m (published id model version ds x)) e f

-- From a state that has published `p`, the last message is about the last thing seen.
published-settled :
    (id : ℕ) (model version : Bytes) (p : Device) (ds : List Device)
    → last_or
        (some (message id model version p))
        (published id model version ds (record { dev = p; info_change = false }))
      ≡ some (message id model version (current p ds))
published-settled id model version p [] = refl
published-settled id model version p (d ∷ ds) =
    let was : InfoState = record { dev = p; info_change = false } in
    ap (last_or (some (message id model version p))) (
      published-step id model version d ds was (record { dev = d; info_change = false })
        (update_info-settled id model version p d) (update_info-now id model version d was))
    ∙ elim (Bool-cases (same_device p d)) [
      | inl same ↦ rw same (
          ap
            (λ x.
              last_or (some (message id model version x))
                (published id model version ds (record { dev = d; info_change = false })))
            (same_device_sound p d same)
          ∙ published-settled id model version d ds)
      | inr other ↦ rw other (published-settled id model version d ds)
    ]

said-current :
    (o : Option DeviceMsg) (a : Speaker)
    → a.state.info_change ≡ true
    → last_or o (said a) ≡ some (current_message a)
said-current o a news =
    let e = update_info-news a.id a.model a.version a.first a.state news in
    ap (last_or o) (
      published-step a.id a.model a.version a.first a.later a.state
        (record { dev = a.first; info_change = false }) (ap (λ r. r.0) e) (ap (λ r. r.1) e))
    ∙ published-settled a.id a.model a.version a.first a.later

speaker_listed :
    (takes : List (Taken DeviceMsg)) (old l : List DeviceMsg) (speakers : List Speaker)
    → ((j : ℕ) → find_info j l ≡ elim (latest j takes) [ none ↦ find_info j old | some m ↦ some m ])
    → All (λ a. (a.state.info_change ≡ true) × (samples_of a.id takes ≡ said a)) speakers
    → All (λ a. find_info a.id l ≡ some (current_message a)) speakers
speaker_listed takes old l [] entries h = tt
speaker_listed takes old l (a ∷ speakers) entries h = (
  entries a.id
      ∙ sym (latest-samples_of a.id (find_info a.id old) takes)
      ∙ ap (last_or (find_info a.id old)) h.0.1
      ∙ said-current (find_info a.id old) a h.0.0,
  speaker_listed takes old l speakers entries h.1,
)

-- `rmt_server_create_device_list` of a running server with a transport and a valid registry, which stays below 2^32
-- devices, where the receive ends without an error. Each of some agents has made one or more updates
-- since it started, with a model and a version that stay, and the samples that the server takes of
-- its ID are its messages in order, mixed with those of others in any way. Then the client gets the number of the
-- devices and, if there is memory for it, the array of all of them, which shows each
-- of these agents with the device that its last update has seen, although an update without a
-- change publishes nothing; no ID stands in the array twice, and a device of which no sample came
-- stands as before.
pub device_list_current :
    (malloc_ok : ℕ → Bool) (fresh : Node) (takes : List (Taken DeviceMsg)) (speakers : List Speaker)
    {s : Server}
    → IsUp s
    → Good s.files.registry
    → length s.files.registry.dev_head + length takes < 2 ^ 32
    → is_neg (stop_code (stopped takes)) ≡ false
    → All (λ a. (a.state.info_change ≡ true) × (samples_of a.id (samples takes) ≡ said a)) speakers
    → (r : Registry) × (create_device_list malloc_ok fresh takes s
        ≡ some (
          some (number_and_array malloc_ok r),
          record s { files = record s.files { registry = r } },
        ))
      × All (λ a. find_info a.id (infos r.dev_head) ≡ some (current_message a)) speakers
      × Distinct (ids r.dev_head)
      × ((j : ℕ)
          → samples_of j (samples takes) ≡ []
          → find_info j (infos r.dev_head) ≡ find_info j (infos s.files.registry.dev_head))
device_list_current malloc_ok fresh takes speakers {s} up g fits fine h =
    let (r, e, g', d, entries) = create_device_list_up malloc_ok fresh takes up g fits in
    let old = infos s.files.registry.dev_head in
    (
      r,
      rw fine at e,
      speaker_listed (samples takes) old (infos r.dev_head) speakers entries h,
      d,
      λ j silent.
          entries j
          ∙ sym (latest-samples_of j (find_info j old) (samples takes))
          ∙ ap (last_or (find_info j old)) silent,
    )
