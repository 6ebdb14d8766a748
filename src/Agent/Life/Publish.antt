-- ===== src/Agent/Life/Publish.antt =====
-- When agent/devinfo_agent.c publishes the device info.
use rmt_library.Common.{
  ℕ, ◌≡◌, refl, ap, ap₂, Bool, true, false, ◌&&◌, if◌then◌else◌, none, some, [], ◌∷◌, Bytes, str_eq,
  arith, Bool-cases, inl, inr,
}
use rmt_library.Agent.Life.{Device, InfoState, same_device, get_device_info, message, update_info}

str_eq_sound : (a b : Bytes) → str_eq a b ≡ true → a ≡ b
str_eq_sound [] [] h = refl
str_eq_sound [] (d ∷ b) h = absurd (ground (arith, h))
str_eq_sound (c ∷ a) [] h = absurd (ground (arith, h))
str_eq_sound (c ∷ a) (d ∷ b) h =
    ap₂ (λ x xs. x ∷ xs) (ground (arith, h)) (str_eq_sound a b (ground (arith, h)))

str_eq_refl : (a : Bytes) → str_eq a a ≡ true
str_eq_refl [] = refl
str_eq_refl (c ∷ a) = ground (arith, str_eq_refl a)

&&-sound : (a b : Bool) → (a && b) ≡ true → (a ≡ true) × (b ≡ true)
&&-sound true true h = (refl, refl)
&&-sound true false h = absurd (ground (arith, h))
&&-sound false b h = absurd (ground (arith, h))

pub same_device_sound : (a b : Device) → same_device a b ≡ true → a ≡ b
same_device_sound a b h =
    let (host, h₁) = &&-sound (str_eq a.hostname b.hostname) _ h in
    let (ip, h₂) = &&-sound (str_eq a.ip b.ip) _ h₁ in
    let (mac, info) = &&-sound (str_eq a.mac b.mac) _ h₂ in
    device_eq a b (str_eq_sound a.hostname b.hostname host) (str_eq_sound a.ip b.ip ip)
      (str_eq_sound a.mac b.mac mac) (str_eq_sound a.devinfo b.devinfo info)
  where
    device_eq :
        (a b : Device)
        → a.hostname ≡ b.hostname
        → a.ip ≡ b.ip
        → a.mac ≡ b.mac
        → a.devinfo ≡ b.devinfo
        → a ≡ b
    device_eq a b p q r t = λ i. record { hostname = p i; ip = q i; mac = r i; devinfo = t i }

get_device_info-now : (now : Device) (s : InfoState) → (get_device_info now s).dev ≡ now
unfolding get_device_info
get_device_info-now now s = elim (Bool-cases (same_device s.dev now)) [
  | inl same ↦ rw same (same_device_sound s.dev now same)
  | inr other ↦ rw other refl
]

-- an update leaves the device that it has seen, and nothing to publish
pub update_info-now :
    (id : ℕ) (model version : Bytes) (now : Device) (s : InfoState)
    → (update_info id model version now s).1 ≡ record { dev = now; info_change = false }
unfolding update_info
update_info-now id model version now s = elim (Bool-cases (get_device_info now s).info_change) [
  | inl news ↦
      rw news (ap (λ d. record { dev = d; info_change = false }) (get_device_info-now now s))
  | inr no_news ↦
      rw no_news (λ i. record { dev = get_device_info-now now s i; info_change = false })
]

-- the update from a state that has nothing to publish
pub update_info-settled :
    (id : ℕ) (model version : Bytes) (p q : Device)
    → (update_info id model version q (record { dev = p; info_change = false })).0
      ≡ (if same_device p q then none else some (message id model version q))
unfolding update_info get_device_info
update_info-settled id model version p q = elim (Bool-cases (same_device p q)) [
  | inl same ↦ rw same refl
  | inr other ↦ rw other refl
]

-- After any update that sees the device `p`, the next one publishes exactly if what it sees of the host name,
-- the address, the MAC or the user's text is different from `p`, and then it publishes what it sees, with
-- the model of that moment.
pub update_info-changes :
    (id : ℕ) (model model' version : Bytes) (p q : Device) (s : InfoState)
    → (update_info id model' version q (update_info id model version p s).1).0
      ≡ (if same_device p q then none else some (message id model' version q))
update_info-changes id model model' version p q s =
    rw (update_info-now id model version p s) (update_info-settled id model' version p q)

-- An update from a state with news publishes what it sees.
pub update_info-news :
    (id : ℕ) (model version : Bytes) (now : Device) (s : InfoState)
    → s.info_change ≡ true
    → update_info id model version now s
      ≡ (some (message id model version now), record { dev = now; info_change = false })
unfolding update_info get_device_info
update_info-news id model version now s news = elim (Bool-cases (same_device s.dev now)) [
  | inl same ↦
      rw (same, news)
        (ap (λ d. (some (message id model version d), record { dev = d; info_change = false }))
          (same_device_sound s.dev now same))
  | inr other ↦ rw other refl
]
