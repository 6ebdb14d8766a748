-- ===== src/Common/Int.antt =====
-- The C type `int` as an integer: `negsuc n` is -(n + 1). Return codes, and results of callbacks.
use Prim.Native.Nat.{ℕ, ◌-◌, ◌%◌, ◌^◌, ◌<◌}
use mathlib.Core.Path.{◌≡◌}
use native.Mathlib.Omega.{arith}
use rmt_library.Common.Tests.{ltb, if◌then◌else◌}
use mathlib.Core.Bool.{Bool, true, false}

pub data ℤ : Type 0 where
  pos : ℕ → ℤ
  negsuc : ℕ → ℤ

-- The code's `-1`, which reports a failure.
abbrev pub minus_one : ℤ
minus_one = negsuc 0

-- `x < 0`
abbrev pub is_neg : ℤ → Bool
is_neg (pos n) = false
is_neg (negsuc n) = true

-- the 32 bits of an `int`, and the `int` of 32 bits
abbrev pub low32 : ℤ → ℕ
low32 (pos n) = n % 2 ^ 32
low32 (negsuc n) = 2 ^ 32 - 1 - n % 2 ^ 32

abbrev pub signed32 : ℕ → ℤ
signed32 n = if ltb n (2 ^ 31) then pos n else negsuc (2 ^ 32 - 1 - n)

-- an `int` holds this number
abbrev pub IsInt : ℤ → Type 0
IsInt (pos n) = n < 2 ^ 31
IsInt (negsuc n) = n < 2 ^ 31

pub signed32-low32 : (z : ℤ) → IsInt z → signed32 (low32 z) ≡ z
signed32-low32 (pos n) h = ground arith
signed32-low32 (negsuc n) h = ground arith

pub low32-signed32 : (n : ℕ) → n < 2 ^ 32 → low32 (signed32 n) ≡ n
low32-signed32 n h = ground arith

pub signed32-IsInt : (n : ℕ) → n < 2 ^ 32 → IsInt (signed32 n)
signed32-IsInt n h = ground arith
