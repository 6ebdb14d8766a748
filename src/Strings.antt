-- ===== src/Strings.antt =====
-- The C string functions that the agent walks its messages with. `strtok` and `strtok_r` share this
-- model: what the one saves between calls, no other function of the program overwrites in between.
pub mod Tokens
use rmt_library.Common.{
  ℕ, zero, suc, ◌+◌, ◌-◌, Bool, true, false, not, if◌then◌else◌, ◌==◌, Option, none, some, List, [],
  ◌∷◌, Bytes, length, ◌≡◌,
}
use mathlib.Core.Option

-- `strtok` passes over delimiters, ...
unfoldable pub skip : ℕ → Bytes → Bytes
skip d [] = []
skip d (c ∷ s) = let rest = skip d s in if c == d then rest else c ∷ s

-- ... and cuts at the next one. The second part is what stands behind the delimiter, if there is one.
unfoldable pub cut : ℕ → Bytes → Bytes × Option Bytes
cut d [] = ([], none)
cut d (c ∷ s) = let r = cut d s in if c == d then ([], some s) else (c ∷ r.0, r.1)

-- A call of `strtok` on a text: a token and what is behind it, or a null pointer.
unfoldable pub strtok : ℕ → Bytes → Option (Bytes × Option Bytes)
unfolding skip cut
strtok d s = elim (skip d s) [ [] ↦ none | c ∷ r ↦ some (cut d (c ∷ r)) ]

-- the text that the next call goes on with
abbrev pub saved : Option Bytes → Bytes
saved none = []
saved (some s) = s

-- All calls of `strtok` on a text until the null pointer. The flag says whether the scan is inside a
-- token that was already given.
unfoldable pub tokens_from : ℕ → Bool → Bytes → List (Bytes × Option Bytes)
tokens_from d inside [] = []
tokens_from d inside (c ∷ s) =
    let rest = tokens_from d (not (c == d)) s in
    if c == d then rest else if inside then rest else cut d (c ∷ s) ∷ rest

abbrev pub tokens : ℕ → Bytes → List (Bytes × Option Bytes)
tokens d s = tokens_from d false s

-- the bytes up to the terminator; `none` if the memory ends before it
unfoldable pub c_str : Bytes → Option Bytes
c_str [] = none
c_str (c ∷ s) = if c == 0 then some [] else Option.map (λ t. c ∷ t) (c_str s)

-- a terminator written at an index
unfoldable pub terminate : ℕ → Bytes → Bytes
terminate i [] = []
terminate zero (c ∷ s) = 0 ∷ s
terminate (suc i) (c ∷ s) = c ∷ terminate i s

-- no byte of a text is the given one
abbrev pub Free : ℕ → Bytes → Type 0
Free d [] = Unit
Free d (c ∷ s) = ((c == d) ≡ false) × Free d s
