-- ===== src/Config/Render.antt =====
-- Configuration files line by line: what the loop of common/rmt_config.c makes of a file with comments, empty lines
-- and settings.
use mathlib.Core.List.{append_assoc}
use rmt_library.Common.{
  ℕ, zero, suc, ◌+◌, ◌<◌, ◌≤◌, ◌≡◌, ◌≢◌, refl, ap, false, ◌==◌, Option, none, some, List, [], ◌∷◌,
  ◌++◌, Bytes, length, length-append, arith, All, ◌∙◌, Option-cases, inl, inr,
}
use rmt_library.Strings.{cut, Free}
use rmt_library.Strings.Tokens.{cut-Free, Free-append}
use rmt_library.Config.{
  Config, is_skipped, scan_line, read_line, read_lines, read_file, find_field, config_mapping,
  store,
}
use rmt_library.Config.Scan.{
  IsWord, blanks, fgets-line, scan_line-pair, scan_line-unset, scan_line-plain,
}

-- a line of a configuration file: a comment, nothing, a key with blanks and a value behind the colon, a key with
-- nothing but blanks behind the colon, or a text without a colon
pub data Line : Type 0 where
  comment : Bytes → Line
  blank : Line
  setting : Bytes → ℕ → Bytes → Line
  unset : Bytes → ℕ → Line
  plain : Bytes → Line

-- the text of a line without its newline
abbrev pub body : Line → Bytes
body (comment s) = b'#' ∷ s
body blank = []
body (setting key n value) = key ++ (b':' ∷ blanks n value)
body (unset key n) = key ++ (b':' ∷ blanks n [])
body (plain s) = s

abbrev pub render : List Line → Bytes
render [] = []
render (l ∷ lines) = body l ++ (10 ∷ render lines)

-- A key that fits its buffer: it is not empty, holds no colon, newline or zero and does not look like a comment.
pub record IsKey (key : Bytes) : Type 0 where
  pub key_some : key ≢ []
  pub no_comment : is_skipped key ≡ false
  pub no_colon : Free b':' key
  pub no_newline : Free 10 key
  pub no_end : Free 0 key
  pub key_fits : length key < 127

-- A key and a value that fit: the value is one word that is not empty and holds no zero.
pub record IsSetting (key : Bytes) (n : ℕ) (value : Bytes) : Type 0 where
  pub named : IsKey key
  pub value_some : value ≢ []
  pub one_word : IsWord value
  pub value_no_end : Free 0 value
  pub value_fits : length value < 256
  pub line_fits : length key + n + length value < 1022

abbrev pub IsLine : Line → Type 0
IsLine (comment s) = Free 10 s × (length s < 1022)
IsLine blank = Unit
IsLine (setting key n value) = IsSetting key n value
IsLine (unset key n) = IsKey key × (length key + n < 1022)
IsLine (plain s) = IsKey s

-- what a line means: a known key is stored, everything else has no effect
abbrev pub assign : Line → Config → Option Config
assign (comment s) c = some c
assign blank c = some c
assign (unset key n) c = some c
assign (plain s) c = some c
assign (setting key n value) c = elim (find_field key config_mapping) [
  | none ↦ some c
  | some f ↦ store f value c
]

abbrev pub assign_all : List Line → Config → Option Config
assign_all [] c = some c
assign_all (l ∷ lines) c = elim (assign l c) [ none ↦ none | some c' ↦ assign_all lines c' ]

word-no-newline : (s : Bytes) → IsWord s → Free 10 s
word-no-newline [] h = tt
word-no-newline (c ∷ s) h = (ground (arith, h.0), word-no-newline s h.1)

blanks-Free : (d n : ℕ) (s : Bytes) → (b' ' == d) ≡ false → Free d s → Free d (blanks n s)
blanks-Free d zero s h f = f
blanks-Free d (suc n) s h f = (h, blanks-Free d n s h f)

blanks-append : (n : ℕ) (s t : Bytes) → blanks n s ++ t ≡ blanks n (s ++ t)
blanks-append zero s t = refl
blanks-append (suc n) s t = ap (λ l. b' ' ∷ l) (blanks-append n s t)

length-blanks : (n : ℕ) (s : Bytes) → length (blanks n s) ≡ n + length s
length-blanks zero s = omega arith
length-blanks (suc n) s = omega (arith, length-blanks n s)

-- a line is one read of `fgets`
pub body_fits : (l : Line) → IsLine l → Free 10 (body l) × (length (body l) < 1023)
body_fits (comment s) h = ((refl, h.0), omega (arith, h.1))
body_fits blank h = (tt, omega arith)
body_fits (setting key n value) h = (
  Free-append 10 key (b':' ∷ blanks n value) h.named.no_newline
      (refl, blanks-Free 10 n value refl (word-no-newline value h.one_word)),
  omega (arith, length-append key (b':' ∷ blanks n value), length-blanks n value, h.line_fits),
)
body_fits (unset key n) h = (
  Free-append 10 key (b':' ∷ blanks n []) h.0.no_newline (refl, blanks-Free 10 n [] refl tt),
  omega (arith, length-append key (b':' ∷ blanks n []), length-blanks n [], h.1),
)
body_fits (plain s) h = (h.no_newline, omega (arith, h.key_fits))

is_skipped-append : (key t : Bytes) → key ≢ [] → is_skipped (key ++ t) ≡ is_skipped key
is_skipped-append [] t ne = absurd (ne refl)
is_skipped-append (c ∷ key) t ne = refl

read_line-text :
    (text : Bytes) (key value : Bytes) (c : Config)
    → Free 0 text
    → is_skipped text ≡ false
    → scan_line text ≡ some (some (key, value))
    → read_line text c
      ≡ elim (find_field key config_mapping) [ none ↦ some c | some f ↦ store f value c ]
unfolding read_line
read_line-text text key value c z k e = rw (cut-Free 0 text z) (rw (k, e) refl)

read_line-setting :
    (key : Bytes) (n : ℕ) (value : Bytes) (c : Config)
    → IsSetting key n value
    → read_line (body (setting key n value) ++ (10 ∷ [])) c ≡ assign (setting key n value) c
read_line-setting key n value c h =
    let whole = key ++ (b':' ∷ blanks n (value ++ (10 ∷ []))) in
    let shape : (key ++ (b':' ∷ blanks n value)) ++ (10 ∷ []) ≡ whole =
      append_assoc key (b':' ∷ blanks n value) (10 ∷ [])
      ∙ ap (λ l. key ++ (b':' ∷ l)) (blanks-append n value (10 ∷ [])) in
    rw shape (
      read_line-text whole key value c
        (Free-append 0 key (b':' ∷ blanks n (value ++ (10 ∷ []))) h.named.no_end (
          refl,
          blanks-Free 0 n (value ++ (10 ∷ [])) refl
              (Free-append 0 value (10 ∷ []) h.value_no_end (refl, tt)),
        ))
        (is_skipped-append key (b':' ∷ blanks n (value ++ (10 ∷ []))) h.named.key_some
          ∙ h.named.no_comment)
        (scan_line-pair key value n h.named.key_some h.named.no_colon
          (omega (arith, h.named.key_fits)) h.value_some h.one_word h.value_fits))

read_line-wrong :
    (text : Bytes) (c : Config)
    → Free 0 text
    → is_skipped text ≡ false
    → scan_line text ≡ some none
    → read_line text c ≡ some c
unfolding read_line
read_line-wrong text c z k e = rw (cut-Free 0 text z) (rw (k, e) refl)

read_line-unset :
    (key : Bytes) (n : ℕ) (c : Config)
    → IsKey key
    → read_line (body (unset key n) ++ (10 ∷ [])) c ≡ some c
read_line-unset key n c h =
    let whole = key ++ (b':' ∷ blanks n (10 ∷ [])) in
    let shape : (key ++ (b':' ∷ blanks n [])) ++ (10 ∷ []) ≡ whole =
      append_assoc key (b':' ∷ blanks n []) (10 ∷ [])
      ∙ ap (λ l. key ++ (b':' ∷ l)) (blanks-append n [] (10 ∷ [])) in
    rw shape (
      read_line-wrong whole c
        (Free-append 0 key (b':' ∷ blanks n (10 ∷ [])) h.no_end
          (refl, blanks-Free 0 n (10 ∷ []) refl (refl, tt)))
        (is_skipped-append key (b':' ∷ blanks n (10 ∷ [])) h.key_some ∙ h.no_comment)
        (scan_line-unset key n h.no_colon h.key_fits))

read_line-plain : (s : Bytes) (c : Config) → IsKey s → read_line (s ++ (10 ∷ [])) c ≡ some c
read_line-plain s c h =
    read_line-wrong (s ++ (10 ∷ [])) c (Free-append 0 s (10 ∷ []) h.no_end (refl, tt))
      (is_skipped-append s (10 ∷ []) h.key_some ∙ h.no_comment)
      (scan_line-plain (s ++ (10 ∷ [])) (Free-append b':' s (10 ∷ []) h.no_colon (refl, tt))
        (omega (arith, length-append s (10 ∷ []), h.key_fits)))

pub read_line-body :
    (l : Line) (c : Config) → IsLine l → read_line (body l ++ (10 ∷ [])) c ≡ assign l c
unfolding read_line cut
read_line-body (comment s) c h = refl
read_line-body blank c h = refl
read_line-body (setting key n value) c h = read_line-setting key n value c h
read_line-body (unset key n) c h = read_line-unset key n c h.0
read_line-body (plain s) c h = read_line-plain s c h

pub read_lines-line :
    (fuel : ℕ) (s rest : Bytes) (c : Config)
    → Free 10 s
    → length s < 1023
    → read_lines (suc fuel) (s ++ (10 ∷ rest)) c
      ≡ elim (read_line (s ++ (10 ∷ [])) c) [ none ↦ none | some c' ↦ read_lines fuel rest c' ]
unfolding read_lines
read_lines-line fuel [] rest c f h = ground (arith, fgets-line 1023 [] rest f h)
read_lines-line fuel (x ∷ s) rest c f h = ground (arith, fgets-line 1023 (x ∷ s) rest f h)

read_lines-render :
    (fuel : ℕ) (lines : List Line) (c : Config)
    → All IsLine lines
    → length (render lines) ≤ fuel
    → read_lines fuel (render lines) c ≡ assign_all lines c
unfolding read_lines
read_lines-render zero [] c h k = refl
read_lines-render (suc fuel) [] c h k = refl
read_lines-render zero (l ∷ lines) c h k =
    absurd (omega (arith, length-append (body l) (10 ∷ render lines)))
read_lines-render (suc fuel) (l ∷ lines) c h k =
    let (free, fits) = body_fits l h.0 in
    read_lines-line fuel (body l) (render lines) c free fits
    ∙ rw (read_line-body l c h.0) (elim (Option-cases (assign l c)) [
      | inl e ↦ ground (arith, e)
      | inr (c', e) ↦ ground (
        arith,
        e,
        read_lines-render fuel lines c' h.1,
        k,
        length-append (body l) (10 ∷ render lines),
      )
    ])

-- Reading a configuration file whose lines are comments, empty, settings, keys without a value and texts
-- without a colon, all of which fit the buffers, stores the settings one after another, in their
-- order, each under the row with its key. A setting with an unknown key has no effect, nor has any
-- other line. A string too long for its field is the only write behind a buffer.
pub read_file-render :
    (lines : List Line) (c : Config)
    → All IsLine lines
    → read_file (render lines) c ≡ assign_all lines c
read_file-render lines c h = read_lines-render (length (render lines)) lines c h (omega arith)
