-- ===== src/Strings/Tokens.antt =====
-- The tokens of a text: the calls of `strtok` one by one, and texts that were joined.
use rmt_library.Common.{ℕ, ◌≡◌, ◌≢◌, refl, true, false, none, some, [], ◌∷◌, ◌++◌, Bytes, arith}
use rmt_library.Strings.{skip, cut, strtok, saved, tokens_from, tokens, Free}

-- behind a token the scan goes on with what `strtok` saved
tokens-inside : (d : ℕ) (s : Bytes) → tokens_from d true s ≡ tokens_from d false (saved (cut d s).1)
unfolding tokens_from cut
tokens-inside d [] = refl
tokens-inside d (c ∷ s) = ground (arith, tokens-inside d s)

tokens-skip : (d : ℕ) (s : Bytes) → tokens d s ≡ tokens d (skip d s)
unfolding tokens_from skip
tokens-skip d [] = refl
tokens-skip d (c ∷ s) = ground (arith, tokens-skip d s)

-- The list of tokens is what the calls of `strtok` give: none if the first call gives a null pointer,
-- and else its token and those of the text that it saves.
pub tokens_lem :
    (d : ℕ) (s : Bytes)
    → tokens d s ≡ elim (strtok d s) [ none ↦ [] | some t ↦ t ∷ tokens d (saved t.1) ]
unfolding strtok tokens_from
tokens_lem d [] = refl
tokens_lem d (c ∷ s) = ground (arith, tokens_lem d s, tokens-inside d s)

pub cut-Free : (d : ℕ) (t : Bytes) → Free d t → cut d t ≡ (t, none)
unfolding cut
cut-Free d [] f = refl
cut-Free d (c ∷ t) f = ground (arith, cut-Free d t f.1)

pub cut-joined : (d : ℕ) (t rest : Bytes) → Free d t → cut d (t ++ (d ∷ rest)) ≡ (t, some rest)
unfolding cut
cut-joined d [] rest f = ground arith
cut-joined d (c ∷ t) rest f = ground (arith, cut-joined d t rest f.1)

-- A text without the delimiter, closed by one, is the first token.
pub tokens-joined :
    (d : ℕ) (t rest : Bytes)
    → t ≢ []
    → Free d t
    → tokens d (t ++ (d ∷ rest)) ≡ (t, some rest) ∷ tokens d rest
unfolding tokens_from cut
tokens-joined d [] rest ne f = absurd (ne refl)
tokens-joined d (c ∷ t) rest ne f =
    ground (arith, f.0, tokens-inside d (t ++ (d ∷ rest)), cut-joined d t rest f.1)

-- The last text needs no delimiter behind it.
pub tokens-last : (d : ℕ) (t : Bytes) → t ≢ [] → Free d t → tokens d t ≡ (t, none) ∷ []
unfolding tokens_from cut
tokens-last d [] ne f = absurd (ne refl)
tokens-last d (c ∷ t) ne f = ground (arith, f.0, tokens-inside d t, cut-Free d t f.1)

-- A delimiter in front of a text gives no token.
pub tokens-empty : (d : ℕ) (rest : Bytes) → tokens d (d ∷ rest) ≡ tokens d rest
unfolding tokens_from
tokens-empty d rest = ground arith

-- An empty text has no token.
pub tokens-nil : (d : ℕ) → tokens d [] ≡ []
unfolding tokens_from
tokens-nil d = refl

pub Free-append : (d : ℕ) (s t : Bytes) → Free d s → Free d t → Free d (s ++ t)
Free-append d [] t f g = g
Free-append d (c ∷ s) t f g = (f.0, Free-append d s t f.1 g)
