-- ===== src/Network/Choice.antt =====
-- Which interface common/network.c chooses.
use rmt_library.Common.{
  ◌≤◌, ◌<◌, ◌≡◌, ◌≢◌, ◌⊎◌, refl, inl, inr, ap, Bool, true, false, ◌&&◌, if◌then◌else◌, ltb, Option,
  none, some, List, [], ◌∷◌, ◌++◌, Bytes, arith, All, Bool-cases,
}
use rmt_library.Network.{
  Interface, starts, is_usable, select_from, select_interface, priority, id_of, best_from,
  generate_id,
}

-- a usable interface with a wireless name
abbrev pub is_wireless : Interface → Bool
is_wireless i = is_usable i && starts b'w' i.name

best_from-first :
    (interfaces : List Interface) (b : Interface)
    → (i : Interface) × (best_from interfaces (some b) ≡ some i)
      × (((i ≡ b) × All (λ j. priority j ≤ priority b) interfaces)
          ⊎ ((before : List Interface) × (after : List Interface) × (interfaces
                ≡ before ++ (i ∷ after))
              × (priority b < priority i)
              × All (λ j. priority j < priority i) before
              × All (λ j. priority j ≤ priority i) after))
unfolding best_from
best_from-first [] b = (b, refl, inl (refl, tt))
best_from-first (x ∷ rest) b = elim (Bool-cases (ltb (priority b) (priority x))) [
  | inr lower ↦
      let (i, e, w) = best_from-first rest b in
      (
        i,
        rw lower e,
        elim w [
          | inl (same, all) ↦ inl (same, (ground (arith, lower), all))
          | inr (before, after, at, more, less, rests) ↦ inr (
            x ∷ before,
            after,
            ap (λ l. x ∷ l) at,
            more,
            (ground (arith, lower, more), less),
            rests,
          )
        ],
      )
  | inl higher ↦
      let (i, e, w) = best_from-first rest x in
      (
        i,
        rw higher e,
        elim w [
          | inl (same, all) ↦
              inr ([], rest, rw same refl, rw same (ground (arith, higher)), tt, rw same all)
          | inr (before, after, at, more, less, rests) ↦ inr (
            x ∷ before,
            after,
            ap (λ l. x ∷ l) at,
            ground (arith, higher, more),
            (more, less),
            rests,
          )
        ],
      )
]

-- If there is any interface, the device ID is made from the first one of the highest priority:
-- every interface before it has a lower priority, and none behind it a higher one.
pub generate_id-first :
    (interfaces : List Interface)
    → interfaces ≢ []
    → (i : Interface) × (before : List Interface) × (after : List Interface) × (interfaces
        ≡ before ++ (i ∷ after))
      × All (λ j. priority j < priority i) before
      × All (λ j. priority j ≤ priority i) after
      × (generate_id interfaces ≡ id_of i.mac)
unfolding generate_id best_from
generate_id-first [] ne = absurd (ne refl)
generate_id-first (x ∷ rest) ne =
    let (i, e, w) = best_from-first rest x in
    elim w [
      | inl (same, all) ↦ (i, [], rest, rw same refl, tt, rw same all, rw (e, generate_id) refl)
      | inr (before, after, at, more, less, rests) ↦
          (i, x ∷ before, after, ap (λ l. x ∷ l) at, (more, less), rests, rw (e, generate_id) refl)
    ]

-- the last usable interface
abbrev pub last_usable : List Interface → Option Bytes → Option Bytes
last_usable [] chosen = chosen
last_usable (i ∷ rest) chosen = last_usable rest (if is_usable i then some i.name else chosen)

select_from-wireless :
    (before after : List Interface) (i : Interface) (chosen : Option Bytes)
    → All (λ j. is_wireless j ≡ false) before
    → is_wireless i ≡ true
    → select_from (before ++ (i ∷ after)) chosen ≡ some i.name
unfolding select_from
select_from-wireless [] after i chosen h w = ground (arith, w)
select_from-wireless (x ∷ before) after i chosen h w = ground (
  arith,
  h.0,
  select_from-wireless before after i (some x.name) h.1 w,
  select_from-wireless before after i chosen h.1 w,
)

select_from-wired :
    (interfaces : List Interface) (chosen : Option Bytes)
    → All (λ j. is_wireless j ≡ false) interfaces
    → select_from interfaces chosen ≡ last_usable interfaces chosen
unfolding select_from
select_from-wired [] chosen h = refl
select_from-wired (x ∷ rest) chosen h =
    ground (arith, h.0, select_from-wired rest (some x.name) h.1, select_from-wired rest chosen h.1)

-- The first usable interface with a wireless name is chosen, whatever stands behind it; a list without one, such
-- as what stands before it, gives its last usable interface, or none.
pub select_interface_lem :
    (before after : List Interface) (i : Interface)
    → All (λ j. is_wireless j ≡ false) before
    → is_wireless i ≡ true
    → (select_interface (before ++ (i ∷ after)) ≡ some i.name)
      × (select_interface before ≡ last_usable before none)
unfolding select_interface
select_interface_lem before after i h w =
    (select_from-wireless before after i none h w, select_from-wired before none h)
