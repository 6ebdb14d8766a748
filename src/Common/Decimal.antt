-- ===== src/Common/Decimal.antt =====
-- The `%d` of `sprintf` and the `atoi` of the C library, on the integers that the code prints and
-- reads. (`atoi` is undefined outside the range of `int`; here it has no range.)
use Prim.Native.Nat.{ℕ, zero, suc, ◌+◌, ◌-◌, ◌*◌, ◌/◌, ◌%◌, ◌<◌}
use mathlib.Core.Path.{◌≡◌, refl, ap, ◌∙◌}
use mathlib.Core.Bool.{Bool, true, ◌&&◌, ◌||◌}
use mathlib.Core.List.{[], ◌∷◌}
use native.Mathlib.Omega.{arith}
use rmt_library.Common.Tests.{leb, ◌==◌, if◌then◌else◌, Bool-cases}
use mathlib.Core.Logic.{inl, inr}
use rmt_library.Common.Lists.{Bytes}
use rmt_library.Common.Int.{ℤ, pos, negsuc}

-- The digits of `n` before `out`. Each round divides by ten, so `n + 1` rounds are enough.
unfoldable pub digits : ℕ → ℕ → Bytes → Bytes
digits zero n out = out
digits (suc fuel) n out =
    let out' = (b'0' + n % 10) ∷ out in
    let rest = digits fuel (n / 10) out' in if n / 10 == 0 then out' else rest

unfoldable pub print_ℕ : ℕ → Bytes
unfolding digits
print_ℕ n = digits (suc n) n []

-- `sprintf(buf, "%d", z)`
unfoldable pub print_int : ℤ → Bytes
print_int (pos n) = print_ℕ n
print_int (negsuc n) = b'-' ∷ print_ℕ (suc n)

abbrev pub is_digit : ℕ → Bool
is_digit c = leb b'0' c && leb c b'9'

-- the number before the first byte that is no digit
unfoldable pub scan : Bytes → ℕ → ℕ
scan [] n = n
scan (c ∷ s) n = let rest = scan s (n * 10 + (c - b'0')) in if is_digit c then rest else n

-- `isspace`: a blank, or one of the codes 9 to 13
abbrev pub is_space : ℕ → Bool
is_space c = c == b' ' || (leb 9 c && leb c 13)

abbrev pub negate : ℕ → ℤ
negate zero = pos 0
negate (suc n) = negsuc n

signed : Bytes → ℤ
signed [] = pos 0
signed (c ∷ s) =
    if c == b'-'
    then negate (scan s 0)
    else if c == b'+'
    then pos (scan s 0)
    else pos (scan (c ∷ s) 0)

unfoldable pub atoi : Bytes → ℤ
unfolding signed scan
atoi [] = pos 0
atoi (c ∷ s) = let rest = atoi s in if is_space c then rest else signed (c ∷ s)

scan-digits : (fuel n : ℕ) (out : Bytes) → n < fuel → scan (digits fuel n out) 0 ≡ scan out n
unfolding digits scan
scan-digits zero n out h = absurd (omega arith)
scan-digits (suc fuel) n out h = ground (arith, scan-digits fuel (n / 10) ((b'0' + n % 10) ∷ out))

-- the digits of a number begin with a digit
digits-head :
    (fuel n : ℕ) (out : Bytes)
    → n < fuel
    → (c : ℕ) × (s : Bytes) × (digits fuel n out ≡ c ∷ s) × (is_digit c ≡ true)
unfolding digits
digits-head zero n out h = absurd (omega arith)
digits-head (suc fuel) n out h = elim (Bool-cases (n / 10 == 0)) [
  | inl e ↦ (b'0' + n % 10, out, rw e refl, ground arith)
  | inr e ↦
      let (c, s, p, q) = digits-head fuel (n / 10) ((b'0' + n % 10) ∷ out) (ground arith) in
      (c, s, rw e p, q)
]

atoi-digits :
    (t : Bytes) (c : ℕ) (s : Bytes) → t ≡ c ∷ s → is_digit c ≡ true → atoi t ≡ pos (scan t 0)
unfolding atoi signed
atoi-digits t c s e h = rw e (ground arith)

scan-print_ℕ : (n : ℕ) → scan (print_ℕ n) 0 ≡ n
unfolding print_ℕ scan
scan-print_ℕ n = scan-digits (suc n) n [] (omega arith)

atoi-print_ℕ : (n : ℕ) → atoi (print_ℕ n) ≡ pos n
unfolding print_ℕ
atoi-print_ℕ n =
    let (c, s, e, d) = digits-head (suc n) n [] (omega arith) in
    atoi-digits (print_ℕ n) c s e d ∙ ap pos (scan-print_ℕ n)

atoi-minus : (t : Bytes) → atoi (b'-' ∷ t) ≡ negate (scan t 0)
unfolding atoi signed
atoi-minus t = refl

-- An integer that is printed by `%d` is read back by `atoi`.
pub atoi-print_int : (z : ℤ) → atoi (print_int z) ≡ z
unfolding print_int
atoi-print_int (pos n) = atoi-print_ℕ n
atoi-print_int (negsuc n) = atoi-minus (print_ℕ (suc n)) ∙ ap negate (scan-print_ℕ (suc n))
