-- ===== src/Config/Scan.antt =====
-- What `fgets` and `sscanf` make of a line of the configuration file in common/rmt_config.c.
use rmt_library.Common.{
  ℕ, zero, suc, ◌<◌, ◌≤◌, ◌≡◌, ◌≢◌, refl, false, none, some, [], ◌∷◌, ◌++◌, Bytes, length, arith,
  is_space,
}
use rmt_library.Strings.{cut, Free}
use rmt_library.Strings.Tokens.{cut-joined, cut-Free}
use rmt_library.Config.{word, skip_space, scan_line, fgets}

-- a text without white space
abbrev pub IsWord : Bytes → Type 0
IsWord [] = Unit
IsWord (c ∷ s) = (is_space c ≡ false) × IsWord s

abbrev pub blanks : ℕ → Bytes → Bytes
blanks zero s = s
blanks (suc n) s = b' ' ∷ blanks n s

pub fgets-line :
    (n : ℕ) (s rest : Bytes)
    → Free 10 s
    → length s < n
    → fgets n (s ++ (10 ∷ rest)) ≡ (s ++ (10 ∷ []), rest)
unfolding fgets
fgets-line zero s rest f h = absurd (omega arith)
fgets-line (suc n) [] rest f h = ground arith
fgets-line (suc n) (c ∷ s) rest f h = ground (arith, f.0, fgets-line n s rest f.1)

-- `%s` takes a word that a newline ends, and passes over blanks in front of it
pub word-newline : (s : Bytes) → IsWord s → word (s ++ (10 ∷ [])) ≡ s
unfolding word
word-newline [] h = refl
word-newline (c ∷ s) h = ground (arith, h.0, word-newline s h.1)

pub skip_space-blanks :
    (n c : ℕ) (s : Bytes) → is_space c ≡ false → skip_space (blanks n (c ∷ s)) ≡ c ∷ s
unfolding skip_space
skip_space-blanks zero c s h = rw h refl
skip_space-blanks (suc n) c s h = skip_space-blanks n c s h

-- A line with a key, blanks and a value that fit is read as the pair.
pub scan_line-pair :
    (key value : Bytes) (n : ℕ)
    → key ≢ []
    → Free b':' key
    → length key < 128
    → value ≢ []
    → IsWord value
    → length value < 256
    → scan_line (key ++ (b':' ∷ blanks n (value ++ (10 ∷ [])))) ≡ some (some (key, value))
unfolding scan_line
scan_line-pair [] value n ne f h ve w k = absurd (ne refl)
scan_line-pair (c ∷ key) [] n ne f h ve w k = absurd (ve refl)
scan_line-pair (c ∷ key) (v ∷ value) n ne f h ve w k = ground (
  arith,
  h,
  k,
  cut-joined b':' (c ∷ key) (blanks n ((v ∷ value) ++ (10 ∷ []))) f,
  skip_space-blanks n v (value ++ (10 ∷ [])) w.0,
  word-newline (v ∷ value) w,
)

skip_space-newline : (n : ℕ) → skip_space (blanks n (10 ∷ [])) ≡ []
unfolding skip_space
skip_space-newline zero = refl
skip_space-newline (suc n) = skip_space-newline n

-- A key without a value, and a text without a colon, are syntax errors.
pub scan_line-unset :
    (key : Bytes) (n : ℕ)
    → Free b':' key
    → length key < 127
    → scan_line (key ++ (b':' ∷ blanks n (10 ∷ []))) ≡ some none
unfolding scan_line word
scan_line-unset key n f h =
    ground (arith, h, cut-joined b':' key (blanks n (10 ∷ [])) f, skip_space-newline n)

pub scan_line-plain :
    (text : Bytes) → Free b':' text → length text < 128 → scan_line text ≡ some none
unfolding scan_line
scan_line-plain text f h = ground (arith, h, cut-Free b':' text f)

-- A text that is too long for `key`, up to its first colon, leaves the buffer; so does a value.
pub scan_line-key_long : (text : Bytes) → 128 ≤ length (cut b':' text).0 → scan_line text ≡ none
unfolding scan_line
scan_line-key_long text h = ground arith

pub scan_line-value_long :
    (key value : Bytes) (n : ℕ)
    → key ≢ []
    → Free b':' key
    → IsWord value
    → 256 ≤ length value
    → scan_line (key ++ (b':' ∷ blanks n (value ++ (10 ∷ [])))) ≡ none
unfolding scan_line
scan_line-value_long [] value n ne f w k = absurd (ne refl)
scan_line-value_long (c ∷ key) [] n ne f w k = absurd (omega arith)
scan_line-value_long (c ∷ key) (v ∷ value) n ne f w k =
    rw
      (
        cut-joined b':' (c ∷ key) (blanks n ((v ∷ value) ++ (10 ∷ []))) f,
        skip_space-blanks n v (value ++ (10 ∷ [])) w.0,
        word-newline (v ∷ value) w,
      )
      (ground (arith, k))
