-- ===== src/Agent/Info/Set.antt =====
-- A SET request in agent/datainfo_agent.c: the pairs that a client has written are the pairs that are set.
use mathlib.Core.List.{append-nil, append_assoc}
use rmt_library.Common.{
  ℕ, suc, ◌+◌, ◌-◌, ◌<◌, ◌≡◌, ◌≢◌, refl, ap, false, ◌==◌, Option, none, some, List, [], ◌∷◌, ◌++◌,
  Bytes, length, length-append, arith, All, drop, Option-cases, inl, inr, ℤ, print_int,
}
use rmt_library.DataInfo.{strcat}
use rmt_library.Strings.{skip, strtok, tokens, c_str, terminate, Free}
use rmt_library.Strings.Tokens.{tokens-joined, tokens-nil, cut-joined, Free-append}
use rmt_library.Agent.Info.{
  DataFunc, find_key, memory, split_pair, add_result, set_pairs, set_reply,
}

-- A pair of a key and a value that the format can carry: the key is not empty and holds no colon or
-- semicolon, the value holds no semicolon and no terminator.
pub record IsPair (p : Bytes × Bytes) : Type 0 where
  pub nonempty : p.0 ≢ []
  pub no_colon : Free b':' p.0
  pub no_semicolon : Free b';' p.0
  pub value_no_semicolon : Free b';' p.1
  pub value_no_end : Free 0 p.1

-- "key:value", and a list of pairs, "key1:value1;key2:value2;"
abbrev pub pair_text : Bytes × Bytes → Bytes
pair_text p = p.0 ++ (b':' ∷ p.1)

abbrev pub encode : List (Bytes × Bytes) → Bytes
encode [] = []
encode (p ∷ ps) = pair_text p ++ (b';' ∷ encode ps)

terminate-append : (s t : Bytes) (c : ℕ) → terminate (length s) (s ++ (c ∷ t)) ≡ s ++ (0 ∷ t)
unfolding terminate
terminate-append [] t c = refl
terminate-append (x ∷ s) t c = ap (λ l. x ∷ l) (terminate-append s t c)

drop-append : (s t : Bytes) (c : ℕ) → drop (suc (length s)) (s ++ (c ∷ t)) ≡ t
drop-append [] t c = refl
drop-append (x ∷ s) t c = drop-append s t c

c_str-append : (s t : Bytes) → Free 0 s → c_str (s ++ (0 ∷ t)) ≡ some s
unfolding c_str
c_str-append [] t f = refl
c_str-append (c ∷ s) t f = rw (f.0, c_str-append s t f.1) refl

skip-nonempty : (d c : ℕ) (s : Bytes) → (c == d) ≡ false → skip d (c ∷ s) ≡ c ∷ s
unfolding skip
skip-nonempty d c s h = rw h refl

strtok-pair :
    (k v : Bytes)
    → k ≢ []
    → Free b':' k
    → (skip b':' (k ++ (b':' ∷ v)) ≡ k ++ (b':' ∷ v))
      × (strtok b':' (k ++ (b':' ∷ v)) ≡ some (k, some v))
unfolding strtok
strtok-pair [] v ne f = absurd (ne refl)
strtok-pair (c ∷ k) v ne f =
    let e = skip-nonempty b':' c (k ++ (b':' ∷ v)) f.0 in
    (e, ground (arith, f.0, cut-joined b':' (c ∷ k) v f))

-- A pair is split into its key and its value, colons in the value included.
pub split_pair-IsPair :
    (p : Bytes × Bytes) (behind : Option Bytes)
    → IsPair p
    → split_pair (pair_text p) behind ≡ some (p.0, some p.1)
unfolding split_pair
split_pair-IsPair (k, v) behind h =
    let (s, t) = strtok-pair k v h.nonempty h.no_colon in
    let at : length (k ++ (b':' ∷ v)) - length (k ++ (b':' ∷ v)) + length k ≡ length k =
      omega arith in
    let next : length k + 1 ≡ suc (length k) = omega arith in
    rw
      (
        t,
        s,
        at,
        next,
        append_assoc k (b':' ∷ v) (0 ∷ memory behind),
        terminate-append k (v ++ (0 ∷ memory behind)) b':',
        drop-append k (v ++ (0 ∷ memory behind)) 0,
        c_str-append v (memory behind) h.value_no_end,
      )
      refl

pair_text-ne-nil : (p : Bytes × Bytes) → IsPair p → pair_text p ≢ []
pair_text-ne-nil ([], v) h = absurd (h.nonempty refl)
pair_text-ne-nil (c ∷ k, v) h = cc

pair_text-Free : (p : Bytes × Bytes) → IsPair p → Free b';' (pair_text p)
pair_text-Free (k, v) h = Free-append b';' k (b':' ∷ v) h.no_semicolon (refl, h.value_no_semicolon)

-- "key:result;", and some lines in a row
abbrev pub result_line : Bytes → ℤ → Bytes
result_line key result = key ++ (b':' ∷ (print_int result ++ (b';' ∷ [])))

abbrev pub flatten : List Bytes → Bytes
flatten [] = []
flatten (l ∷ ls) = l ++ flatten ls

add_result_lem :
    (text key : Bytes) (result : ℤ)
    → length (result_line key result) < 128
    → length text + length (result_line key result) < 1024
    → add_result text key result ≡ some (text ++ result_line key result)
unfolding add_result strcat
add_result_lem text key result h k = ground arith

module _ {W : Type 0} (maps : List (DataFunc W)) where
  -- the result lines of the pairs whose key has a set function, in order, each from a call with that very
  -- value, and the world behind the calls
  abbrev pub results : List (Bytes × Bytes) → W → List Bytes × W
  results [] w = ([], w)
  results (p ∷ ps) w = elim (find_key p.0 maps) [
    | none ↦ results ps w
    | some f ↦ (elim f.set_func [
      | none ↦ results ps w
      | some set ↦
          let more = results ps (set p.1 w).1 in (result_line p.0 (set p.1 w).0 ∷ more.0, more.1)
    ])
  ]

  set_pairs_lem :
      (ps : List (Bytes × Bytes)) (beyond : Option Bytes) (text : Bytes) (w : W)
      → All IsPair ps
      → All (λ l. length l < 128) (results ps w).0
      → length text + length (flatten (results ps w).0) < 1024
      → set_pairs maps beyond (tokens b';' (encode ps)) text w
        ≡ some (text ++ flatten (results ps w).0, (results ps w).1)
  unfolding set_pairs
  set_pairs_lem [] beyond text w h short room = rw (tokens-nil, append-nil, set_pairs) refl
  set_pairs_lem (p ∷ ps) beyond text w h short room =
      rw
        (tokens-joined b';' (pair_text p) (encode ps) (pair_text-ne-nil p h.0)
          (pair_text-Free p h.0))
        (elim (Option-cases (find_key p.0 maps)) [
          | inl unknown ↦ ground (
            arith,
            unknown,
            split_pair-IsPair p (some (encode ps)) h.0,
            set_pairs_lem ps beyond text w h.1,
          )
          | inr (f, known) ↦ (elim (Option-cases f.set_func) [
            | inl unset ↦ ground (
              arith,
              known,
              unset,
              split_pair-IsPair p (some (encode ps)) h.0,
              set_pairs_lem ps beyond text w h.1,
            )
            | inr (set, called) ↦
                let line = result_line p.0 (set p.1 w).0 in
                let more = results ps (set p.1 w).1 in
                ground (
                  arith,
                  known,
                  called,
                  split_pair-IsPair p (some (encode ps)) h.0,
                  add_result_lem text p.0 (set p.1 w).0,
                  length-append text line,
                  length-append line (flatten more.0),
                  append_assoc text line (flatten more.0),
                  set_pairs_lem ps beyond (text ++ line) (set p.1 w).1 h.1,
                )
          ])
        ])

  -- A list of pairs that the format can carry is set pair by pair: each known key's set function is called
  -- with exactly the value that was written for it, in order, and the answer is the lines of their
  -- results. The lines must stay below 128 bytes, and the answer below 1024.
  pub set_reply-encode :
      (ps : List (Bytes × Bytes)) (beyond : Option Bytes) (w : W)
      → All IsPair ps
      → All (λ l. length l < 128) (results ps w).0
      → length (flatten (results ps w).0) < 1024
      → set_reply maps (encode ps) beyond w ≡ some (flatten (results ps w).0, (results ps w).1)
  unfolding set_reply
  set_reply-encode ps beyond w h short room = set_pairs_lem ps beyond [] w h short (omega arith)
