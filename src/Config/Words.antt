-- ===== src/Config/Words.antt =====
-- The keys and the values that `rmt_config_print` of common/rmt_config.c writes: each is one word that a
-- configuration file can hold.
use rmt_library.Common.{
  ℕ, zero, suc, ◌+◌, ◌*◌, ◌/◌, ◌%◌, ◌^◌, ◌<◌, ◌≤◌, ◌≡◌, ◌≢◌, refl, ap, Bool, true, false, ◌&&◌, not,
  ◌==◌, some, [], ◌∷◌, Bytes, length, arith, ℤ, pos, negsuc, print_int, print_ℕ, digits, IsInt, ltb,
}
use rmt_library.Strings.{Free}
use rmt_library.Config.{
  Field, interface, domain, switch_interface, log_file, timeout, id, datainfo, devinfo, keepalive,
  name_of, config_mapping, is_skipped, find_field,
}
use rmt_library.Config.Scan.{IsWord}
use rmt_library.Config.Render.{IsKey}

-- ten to the power of a number
abbrev pow10 : ℕ → ℕ
pow10 zero = 1
pow10 (suc k) = 10 * pow10 k

length-digits :
    (fuel n k : ℕ) (out : Bytes) → n < pow10 k → length (digits fuel n out) ≤ length out + k + 1
unfolding digits
length-digits zero n k out h = omega arith
length-digits (suc fuel) n zero out h = ground arith
length-digits (suc fuel) n (suc k) out h =
    ground (arith, length-digits fuel (n / 10) k ((b'0' + n % 10) ∷ out))

digits-IsWord : (fuel n : ℕ) (out : Bytes) → IsWord out → IsWord (digits fuel n out)
unfolding digits
digits-IsWord zero n out h = h
digits-IsWord (suc fuel) n out h =
    ground (arith, h, digits-IsWord fuel (n / 10) ((b'0' + n % 10) ∷ out))

-- a word without a zero that is not empty and shorter than 40 bytes
pub record IsValue (v : Bytes) : Type 0 where
  pub one_word : IsWord v
  pub no_end : Free 0 v
  pub value_some : v ≢ []
  pub short : length v < 40

digits-Free : (fuel n : ℕ) (out : Bytes) → Free 0 out → Free 0 (digits fuel n out)
unfolding digits
digits-Free zero n out h = h
digits-Free (suc fuel) n out h =
    ground (arith, h, digits-Free fuel (n / 10) ((b'0' + n % 10) ∷ out))

length-digits-grow : (fuel n : ℕ) (out : Bytes) → length out ≤ length (digits fuel n out)
unfolding digits
length-digits-grow zero n out = omega arith
length-digits-grow (suc fuel) n out =
    ground (arith, length-digits-grow fuel (n / 10) ((b'0' + n % 10) ∷ out))

digits-ne-nil : (fuel n : ℕ) → digits (suc fuel) n [] ≢ []
unfolding digits
digits-ne-nil fuel n e =
    ground (
      arith,
      ap (λ (l : Bytes). length l) e,
      length-digits-grow fuel (n / 10) ((b'0' + n % 10) ∷ []),
    )

pub print_ℕ-IsValue :
    (n : ℕ)
    → n < 2 ^ 32
    → (IsWord (print_ℕ n)) × (Free 0 (print_ℕ n)) × (print_ℕ n ≢ []) × (length (print_ℕ n) < 39)
unfolding print_ℕ
print_ℕ-IsValue n h = (
  digits-IsWord (suc n) n [] tt,
  digits-Free (suc n) n [] tt,
  digits-ne-nil n n,
  omega (arith, length-digits (suc n) n 10 [] (omega arith)),
)

pub print_int-IsValue : (z : ℤ) → IsInt z → IsValue (print_int z)
unfolding print_int
print_int-IsValue (pos n) h =
    let (w, f, s, l) = print_ℕ-IsValue n (omega arith) in
    record { one_word = w; no_end = f; value_some = s; short = omega arith }
print_int-IsValue (negsuc n) h =
    let (w, f, s, l) = print_ℕ-IsValue (suc n) (omega arith) in
    record { one_word = (refl, w); no_end = (refl, f); value_some = cc; short = omega arith }

-- A test that a text can be a key, to be run on the nine names.
abbrev is_free : ℕ → Bytes → Bool
is_free d [] = true
is_free d (c ∷ s) = not (c == d) && is_free d s

pub is_free_sound : (d : ℕ) (s : Bytes) → is_free d s ≡ true → Free d s
is_free_sound d [] h = tt
is_free_sound d (c ∷ s) h = (ground arith, is_free_sound d s (ground arith))

is_free-IsKey :
    (s : Bytes)
    → (is_free b':' s && (is_free 10 s && (is_free 0 s && (ltb 0 (length s) && ltb (length s) 17))))
      ≡ true
    → is_skipped s ≡ false
    → IsKey s
is_free-IsKey s h k = record {
  key_some = λ e. ground (arith, h, ap (λ (l : Bytes). length l) e);
  no_comment = k;
  no_colon = is_free_sound b':' s (ground arith);
  no_newline = is_free_sound 10 s (ground arith);
  no_end = is_free_sound 0 s (ground arith);
  key_fits = ground arith;
}

pub name_of-IsKey : (f : Field) → IsKey (name_of f) × (length (name_of f) < 17)
name_of-IsKey interface = (is_free-IsKey (name_of interface) refl refl, omega arith)
name_of-IsKey domain = (is_free-IsKey (name_of domain) refl refl, omega arith)
name_of-IsKey switch_interface = (is_free-IsKey (name_of switch_interface) refl refl, omega arith)
name_of-IsKey log_file = (is_free-IsKey (name_of log_file) refl refl, omega arith)
name_of-IsKey timeout = (is_free-IsKey (name_of timeout) refl refl, omega arith)
name_of-IsKey id = (is_free-IsKey (name_of id) refl refl, omega arith)
name_of-IsKey datainfo = (is_free-IsKey (name_of datainfo) refl refl, omega arith)
name_of-IsKey devinfo = (is_free-IsKey (name_of devinfo) refl refl, omega arith)
name_of-IsKey keepalive = (is_free-IsKey (name_of keepalive) refl refl, omega arith)

pub find_field-name_of : (f : Field) → find_field (name_of f) config_mapping ≡ some f
find_field-name_of interface = refl
find_field-name_of domain = refl
find_field-name_of switch_interface = refl
find_field-name_of log_file = refl
find_field-name_of timeout = refl
find_field-name_of id = refl
find_field-name_of datainfo = refl
find_field-name_of devinfo = refl
find_field-name_of keepalive = refl
