-- ===== src/FileTransfer/Expire.antt =====
-- The timeout of a file transfer in server/datainfo_server.c: which entries its loop stops.
use mathlib.Core.Option
use native.Mathlib.Decide.{ℕ_discrete}
use rmt_library.Common.{
  ℕ, ◌≡◌, refl, ◌∙◌, sym, Bool, true, false, if◌then◌else◌, ◌==◌, Option, none, some, List, [], ◌∷◌,
  length, arith, inl, inr, Option-cases, Bool-cases, ==_refl, All,
}
use rmt_library.Types.{status_agent_error, empty_result, TransferStatus, TransferResult, is_running}
use rmt_library.DevInfo.{Registry, Node, get_status, set_status}
use rmt_library.DevInfo.Lookup.{lookup, get_status-lookup}
use rmt_library.DevInfo.Loops.{put_status}
use rmt_library.DevInfo.Status.{Good, set_status-Marked}
use rmt_library.FileTransfer.{expire, expire_all}
use rmt_library.FileTransfer.Start.{member}

-- what the timeout does to an entry
abbrev pub stop : Node → Node
stop n =
    if is_running n.agent_transfer_status then put_status status_agent_error empty_result n else n

-- the listed devices that run are stopped, and no other entry changes
abbrev pub AllStopped : List ℕ → Registry → Registry → Type 0
AllStopped ids r r' =
    (j : ℕ) → lookup j r' ≡ (if member j ids then Option.map stop (lookup j r) else lookup j r)

-- two changes that agree on the entry of an ID agree on all entries
agree_at :
    (id j : ℕ) (r : Registry) (f g : Option Node → Option Node)
    → f (lookup id r) ≡ g (lookup id r)
    → (if id == j then f (lookup j r) else lookup j r)
      ≡ (if id == j then g (lookup j r) else lookup j r)
agree_at id j r f g e = elim (ℕ_discrete id j) [
  | yes same ↦ rw (← same) (rw (==_refl id) e)
  | no other ↦ ground arith
]

if_same {ℓ} : {A : Type ℓ} (b : Bool) (x : A) → (if b then x else x) ≡ x
if_same true x = refl
if_same false x = refl

-- one round of the timeout's loop
expire_one :
    (id : ℕ) {r : Registry}
    → Good r
    → (status : TransferStatus) × (result : TransferResult) × (r' : Registry) × (get_status id r
        ≡ some (status, result))
      × ((if is_running status
            then Option.map (λ a. a.1) (set_status id status_agent_error empty_result r)
            else some r)
          ≡ some r')
      × Good r'
      × ((j : ℕ) → lookup j r' ≡ (if id == j then Option.map stop (lookup j r) else lookup j r))
expire_one id {r} g = elim (Option-cases (lookup id r)) [
  | inl missing ↦ (
    status_agent_error,
    empty_result,
    r,
    get_status-lookup id g.valid g.fits ∙ rw missing refl,
    refl,
    g,
    λ j.
        sym (if_same (id == j) (lookup j r))
        ∙ agree_at id j r (λ o. o) (Option.map stop) (rw missing refl),
  )
  | inr (n, found) ↦ elim (Bool-cases (is_running n.agent_transfer_status)) [
    | inr idle ↦ (
      n.agent_transfer_status,
      n.transfer_result,
      r,
      get_status-lookup id g.valid g.fits ∙ rw found refl,
      rw idle refl,
      g,
      λ j.
          sym (if_same (id == j) (lookup j r))
          ∙ agree_at id j r (λ o. o) (Option.map stop) (rw (found, idle) refl),
    )
    | inl runs ↦
        let (r', e, m) = set_status-Marked id status_agent_error empty_result g in
        (
          n.agent_transfer_status,
          n.transfer_result,
          r',
          get_status-lookup id g.valid g.fits ∙ rw found refl,
          rw (runs, e) refl,
          m.good,
          λ j.
              m.entry j
              ∙ agree_at id j r (Option.map (put_status status_agent_error empty_result))
                  (Option.map stop) (rw (found, runs) refl),
        )
  ]
]

-- two such changes in a row make one
absorb :
    (a b : Bool) (f : Option Node → Option Node) (o : Option Node)
    → f (f o) ≡ f o
    → (if b then f (if a then f o else o) else (if a then f o else o))
      ≡ (if (if a then true else b) then f o else o)
absorb true true f o e = e
absorb true false f o e = refl
absorb false true f o e = refl
absorb false false f o e = refl

stop_twice : (o : Option Node) → Option.map stop (Option.map stop o) ≡ Option.map stop o
stop_twice none = refl
stop_twice (some n) = ground arith

expire-AllStopped :
    (ids : List ℕ) {r : Registry}
    → Good r
    → (r' : Registry) × (expire (length ids) ids r ≡ some r') × Good r' × AllStopped ids r r'
unfolding expire
expire-AllStopped [] {r} g = (r, refl, g, λ j. refl)
expire-AllStopped (id ∷ ids) {r} g =
    let (status, result, r₁, e₁, f₁, g₁, all₁) = expire_one id g in
    let (r₂, e₂, g₂, all₂) = expire-AllStopped ids g₁ in
    (
      r₂,
      rw (e₁, expire, f₁) e₂,
      g₂,
      λ j.
          all₂ j
          ∙ rw (all₁ j) (
              absorb (id == j) (member j ids) (Option.map stop) (lookup j r)
                (stop_twice (lookup j r))),
    )

-- a known device whose status is still "running"
abbrev pub still_running : ℕ → Registry → Bool
still_running id r = elim (lookup id r) [
  | none ↦ false
  | some n ↦ is_running n.agent_transfer_status
]

pub All-of-member :
    (p : ℕ → Bool) (ids : List ℕ)
    → ((j : ℕ) → member j ids ≡ true → p j ≡ false)
    → All (λ id. p id ≡ false) ids
All-of-member p [] h = tt
All-of-member p (id ∷ ids) h =
    (h id (rw (==_refl id) refl), All-of-member p ids (λ j m. h j (ground arith)))

pub not_running :
    (r' r : Registry) (ids : List ℕ) (j : ℕ)
    → lookup j r' ≡ (if member j ids then Option.map stop (lookup j r) else lookup j r)
    → member j ids ≡ true
    → still_running j r' ≡ false
not_running r' r ids j e m = ground arith

pub expire_all-AllStopped :
    (n : ℕ) (l : Option (List ℕ)) (ids : List ℕ) {r : Registry}
    → l ≡ some ids
    → length ids ≡ n
    → Good r
    → (r' : Registry) × (expire_all n l r ≡ some r') × Good r' × AllStopped ids r r'
unfolding expire_all
expire_all-AllStopped n l ids {r} e m g = rw (e, ← m) (nonempty ids g)
  where
    nonempty :
        (ids : List ℕ)
        → Good r
        → (r' : Registry) × (expire_all (length ids) (some ids) r ≡ some r')
          × Good r'
          × AllStopped ids r r'
    nonempty [] g = (r, refl, g, λ j. refl)
    nonempty (id ∷ ids) g = expire-AllStopped (id ∷ ids) g
