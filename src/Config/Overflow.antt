-- ===== src/Config/Overflow.antt =====
-- Lines that do not fit the buffers of `rmt_config_init` in common/rmt_config.c.
use mathlib.Core.List.{append_assoc}
use rmt_library.Common.{
  ℕ, zero, suc, ◌<◌, ◌≤◌, ◌≡◌, refl, ap, false, none, some, List, [], ◌∷◌, ◌++◌, Bytes, length,
  length-append, arith, All, ◌∙◌, Option-cases, inl, inr,
}
use rmt_library.Strings.{cut, Free}
use rmt_library.Strings.Tokens.{cut-Free, Free-append}
use rmt_library.Config.{Config, is_skipped, read_line, read_lines, read_file}
use rmt_library.Config.Scan.{scan_line-key_long}
use rmt_library.Config.Render.{
  Line, IsLine, body, render, assign, assign_all, body_fits, read_line-body, read_lines-line,
}

-- The loop comes to what stands behind some lines, with fuel for it.
read_lines-behind :
    (fuel : ℕ) (lines : List Line) (tail : Bytes) (c c' : Config)
    → All IsLine lines
    → assign_all lines c ≡ some c'
    → length (render lines ++ tail) ≤ fuel
    → (f : ℕ) × (length tail ≤ f)
      × (read_lines fuel (render lines ++ tail) c ≡ read_lines f tail c')
read_lines-behind fuel [] tail c c' h e k =
    (fuel, k, ap (λ d. read_lines fuel tail d) (ground (arith, e)))
read_lines-behind zero (l ∷ lines) tail c c' h e k = absurd (
    omega (
      arith,
      length-append (body l ++ (10 ∷ render lines)) tail,
      length-append (body l) (10 ∷ render lines),
    ))
read_lines-behind (suc fuel) (l ∷ lines) tail c c' h e k =
    let (free, fits) = body_fits l h.0 in
    let shape : render (l ∷ lines) ++ tail ≡ body l ++ (10 ∷ (render lines ++ tail)) =
      append_assoc (body l) (10 ∷ render lines) tail in
    elim (Option-cases (assign l c)) [
      | inl bad ↦ absurd (ground (arith, e, bad))
      | inr (d, good) ↦
          let (f, enough, rest) =
            read_lines-behind fuel lines tail d c' h.1 (ground (arith, e, good)) (
              omega (
                arith,
                k,
                ap (λ (b : Bytes). length b) shape,
                length-append (body l) (10 ∷ (render lines ++ tail)),
              )) in
          (
            f,
            enough,
            rw shape (
                read_lines-line fuel (body l) (render lines ++ tail) c free fits
                ∙ rw (read_line-body l c h.0, good) rest),
          )
    ]

read_line-long :
    (text : Bytes) (c : Config)
    → Free 0 text
    → is_skipped text ≡ false
    → 128 ≤ length (cut b':' text).0
    → read_line text c ≡ none
unfolding read_line
read_line-long text c z k long = rw (cut-Free 0 text z) (rw (k, scan_line-key_long text long) refl)

-- A line that is no comment and has 128 bytes or more in front of its first colon (or in all, with its newline, if
-- it has none) is written behind `key`, if the lines in front of it are read, fit and can be
-- stored: the start of the program faults.
pub read_file-key_long :
    (lines : List Line) (text rest : Bytes) (c c' : Config)
    → All IsLine lines
    → assign_all lines c ≡ some c'
    → Free 10 text
    → Free 0 text
    → is_skipped (text ++ (10 ∷ [])) ≡ false
    → length text < 1023
    → 128 ≤ length (cut b':' (text ++ (10 ∷ []))).0
    → read_file (render lines ++ (text ++ (10 ∷ rest))) c ≡ none
read_file-key_long lines text rest c c' h e n z k fits long =
    let tail = text ++ (10 ∷ rest) in
    let (f, enough, reached) =
      read_lines-behind (length (render lines ++ tail)) lines tail c c' h e (omega arith) in
    reached ∙ faults f enough
  where
    faults :
        (f : ℕ) → length (text ++ (10 ∷ rest)) ≤ f → read_lines f (text ++ (10 ∷ rest)) c' ≡ none
    faults zero enough = absurd (omega (arith, length-append text (10 ∷ rest)))
    faults (suc f) enough =
        read_lines-line f text rest c' n fits
        ∙ rw
            (read_line-long (text ++ (10 ∷ [])) c' (Free-append 0 text (10 ∷ []) z (refl, tt)) k
              long)
            refl
