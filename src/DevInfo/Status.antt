-- ===== src/DevInfo/Status.antt =====
-- Setting statuses one after another on the registry of server/devinfo_server.c.
use mathlib.Core.Option
use mathlib.Core.Path.{subst}
use rmt_library.Common.{
  ℕ, ◌≡◌, ◌<◌, ◌^◌, if◌then◌else◌, ◌==◌, none, some, length, pos, minus_one, arith,
}
use rmt_library.Types.{TransferStatus, TransferResult}
use rmt_library.DevInfo.{Registry, set_status}
use rmt_library.DevInfo.Inv.{IsValid, set_status-IsValid}
use rmt_library.DevInfo.Loops.{put_status}
use rmt_library.DevInfo.Lookup.{lookup, set_status-lookup}

-- A valid registry whose length the counter holds.
pub record Good (s : Registry) : Type 0 where
  pub valid : IsValid s
  pub fits : length s.dev_head < 2 ^ 32

-- The registry `s'` is `s` with one status written.
pub record Marked (id : ℕ) (status : TransferStatus) (result : TransferResult) (s s' : Registry)
    : Type 0 where
  pub good : Good s'
  pub entry :
      (j : ℕ)
      → lookup j s'
        ≡ (if id == j then Option.map (put_status status result) (lookup j s) else lookup j s)

pub set_status-Marked :
    (id : ℕ) (status : TransferStatus) (result : TransferResult) {s : Registry}
    → Good s
    → (s' : Registry) × (set_status id status result s
        ≡ some (elim (lookup id s) [ none ↦ minus_one | some n ↦ pos 0 ], s'))
      × Marked id status result s s'
set_status-Marked id status result {s} g =
    let (s', e, l) = set_status-lookup id status result g.valid g.fits in
    let (code, s₂, e₂, v₂, n) = set_status-IsValid id status result g.valid in
    let good : Good s₂ = record { valid = v₂; fits = omega (arith, n, g.fits) } in
    let same : s₂ ≡ s' = cc (e, e₂) in (s', e, record { good = subst Good same good; entry = l })
