-- ===== src/Session/Exchange.antt =====
-- What a request comes to at the agents that it names: one reply of each, and their worlds behind it.
use rmt_library.Common.{
  ℕ, zero, suc, ◌≡◌, refl, some, List, [], ◌∷◌, Bytes, map, All, arith, get_elem?, ◌==◌, Bool-cases,
  inl, inr,
}
use rmt_library.Types.{Request, Reply}
use rmt_library.Transport.Receive.{samples}
use rmt_library.Agent.Queue.Fifo.{Holds}
use rmt_library.Agent.Info.{found_idx}
use rmt_library.Agent.Requests.{Setup, State, handle, reply_to, update}
use rmt_library.Agent.Requests.Update.{serve, update_lem}
use rmt_library.Session.{Member, taken, exchange, sent_by}

-- An agent with no reply left in its queue is named by a request and handles it with this message, binary part and
-- world.
abbrev pub Handles : {W : Type 0} → Request → Member W → Bytes × Bytes × W → Type 0
Handles req m r =
    Holds m.state.queue []
    × ((idx : ℕ) × (found_idx m.setup.my_id req.id_list ≡ some idx)
        × (handle m.setup req idx m.state.world ≡ some r))

-- agents with the same setups, given worlds, and empty queues
abbrev pub Became : {W : Type 0} → List (Setup W) → List W → List (Member W) → Type 0
Became setups worlds after =
    (map (λ m. m.setup) after ≡ setups)
    × (map (λ m. m.state.world) after ≡ worlds)
    × All (λ m. Holds m.state.queue []) after

serve_one :
    {W : Type 0} (a : Setup W) (req : Request) (w w' : W) (idx : ℕ) (msg binary : Bytes)
    → found_idx a.my_id req.id_list ≡ some idx
    → handle a req idx w ≡ some (msg, binary, w')
    → serve a (samples (taken req ∷ [])) w ≡ some (reply_to a req msg binary ∷ [], w')
serve_one a req w w' idx msg binary e h = ground (arith, e, h)

module _ {W A : Type 0} (req : Request) (member : A → Member W)
    (result : A → Bytes × Bytes × W) where
  exchange_step :
      (a : A) (agents : List A) {s : State W} {sent : List Reply} {after : List (Member W)}
      → update (member a).setup (taken req ∷ []) (member a).state
        ≡ some (reply_to (member a).setup req (result a).0 (result a).1 ∷ [], s)
      → exchange req (map member agents) ≡ some (sent, after)
      → exchange req (map member (a ∷ agents))
        ≡ some (
          reply_to (member a).setup req (result a).0 (result a).1 ∷ sent,
          record { setup = (member a).setup; state = s } ∷ after,
        )
  unfolding exchange
  exchange_step a agents e f = rw (e, exchange) (rw f refl)

  pub exchange_lem :
      (agents : List A)
      → All (λ a. Handles req (member a) (result a)) agents
      → (after : List (Member W)) × (exchange req (map member agents)
          ≡ some (map (λ a. reply_to (member a).setup req (result a).0 (result a).1) agents, after))
        × Became (map (λ a. (member a).setup) agents) (map (λ a. (result a).2) agents) after
  unfolding exchange
  exchange_lem [] h = ([], refl, (refl, refl, tt))
  exchange_lem (a ∷ agents) h =
      let (idx, named, handled) = h.0.1 in
      let (s, e, idle, w) =
        update_lem (member a).setup (taken req ∷ []) (member a).state
          (reply_to (member a).setup req (result a).0 (result a).1 ∷ []) (result a).2 h.0.0
          (serve_one (member a).setup req (member a).state.world (result a).2 idx (result a).0
            (result a).1 named handled)
          (omega arith) in
      let (after, f, b) = exchange_lem agents h.1 in
      (
        record { setup = (member a).setup; state = s } ∷ after,
        exchange_step a agents e f,
        (ground (arith, b.0), ground (arith, b.1, w), (idle, b.2)),
      )

-- a listed ID is found
pub found_idx-map :
    {A : Type 0} (id : A → ℕ) (agents : List A) (i : ℕ) {a : A}
    → get_elem? agents i ≡ some a
    → (idx : ℕ) × (found_idx (id a) (map id agents) ≡ some idx)
unfolding found_idx
found_idx-map id [] i e = absurd (ground arith)
found_idx-map id (b ∷ agents) zero e = (0, ground (arith, e))
found_idx-map id (b ∷ agents) (suc i) {a} e =
    let (idx, f) = found_idx-map id agents i e in
    elim (Bool-cases (id a == id b)) [
      | inl same ↦ (0, rw same refl)
      | inr other ↦ (suc idx, rw (other, f) refl)
    ]

-- a predicate on each element, proved from its index
pub All-indexed :
    {A : Type 0} {P Q : A → Type 0} (agents : List A)
    → ((i : ℕ) (a : A) → get_elem? agents i ≡ some a → P a → Q a)
    → All P agents
    → All Q agents
All-indexed [] f h = tt
All-indexed (a ∷ agents) f h = (f 0 a refl h.0, All-indexed agents (λ i b e p. f (suc i) b e p) h.1)

pub sent_by_lem :
    {W : Type 0} (req : Request) (members : List (Member W)) {sent : List Reply}
    {after : List (Member W)}
    → exchange req members ≡ some (sent, after)
    → sent_by req members ≡ sent
sent_by_lem req members e = ground (arith, e)

-- a predicate on the images of a list's elements
pub All-map :
    {A B : Type 0} (P : A → Type 0) (Q : B → Type 0) (f : A → B) (xs : List A)
    → ((x : A) → P x → Q (f x))
    → All P xs
    → All Q (map f xs)
All-map P Q f [] g h = tt
All-map P Q f (x ∷ xs) g h = (g x h.0, All-map P Q f xs g h.1)

pub All-of_map :
    {A B : Type 0} (P R : A → Type 0) (Q : B → Type 0) (f : A → B) (xs : List A)
    → ((x : A) → R x → Q (f x) → P x)
    → All R xs
    → All Q (map f xs)
    → All P xs
All-of_map P R Q f [] g r h = tt
All-of_map P R Q f (x ∷ xs) g r h = (g x r.0 h.0, All-of_map P R Q f xs g r.1 h.1)
