-- ===== src/Agent/Info/Get.antt =====
-- The answer to a GET request in agent/datainfo_agent.c: its text, and that its buffer always grows enough.
use mathlib.Core.List.{append-nil, append_assoc}
use rmt_library.Common.{
  ℕ, ◌+◌, ◌^◌, ◌<◌, ◌≡◌, refl, Option, none, some, List, [], ◌∷◌, ◌++◌, Bytes, length,
  length-append, arith, Option-cases, inl, inr,
}
use rmt_library.DataInfo.{strcat}
use rmt_library.Strings.{tokens}
use rmt_library.Agent.Info.{DataFunc, find_key, read_value, grown, add_answer, get_keys, get_reply}

-- one answer, "key:value;"
abbrev pub line : Bytes → Bytes → Bytes
line key value = key ++ (b':' ∷ (value ++ (b';' ∷ [])))

length-line : (key value : Bytes) → length (line key value) ≡ length key + length value + 2
length-line key value =
    omega
      (arith, length-append key (b':' ∷ (value ++ (b';' ∷ []))), length-append value (b';' ∷ []))

add_answer_lem :
    (size : ℕ) (text key value : Bytes)
    → length text + length key + length value + 2 < size
    → add_answer size text key value ≡ some (text ++ line key value)
unfolding add_answer strcat
add_answer_lem size text key value h = ground (
  arith,
  length-append text key,
  length-append (text ++ key) (b':' ∷ []),
  length-append ((text ++ key) ++ (b':' ∷ [])) value,
  append_assoc ((text ++ key) ++ (b':' ∷ [])) value (b';' ∷ []),
  append_assoc (text ++ key) (b':' ∷ []) (value ++ (b';' ∷ [])),
  append_assoc text key (b':' ∷ (value ++ (b';' ∷ []))),
)

-- the buffer has room for the next answer and the terminator
grown_enough :
    (size : ℕ) (text key value : Bytes)
    → length text + length key + length value + 2 < 2 ^ 31
    → length text + length key + length value + 2 < grown size text key value
grown_enough size text key value h = ground arith

module _ {W : Type 0} (maps : List (DataFunc W)) where
  -- the answers to the keys of some tokens that are known, in order, and the world behind them
  abbrev pub answers : List (Bytes × Option Bytes) → W → Bytes × W
  answers [] w = ([], w)
  answers ((key, rest) ∷ keys) w = elim (find_key key maps) [
    | none ↦ answers keys w
    | some f ↦
        let more = answers keys (read_value f w).1 in
        (line key (read_value f w).0 ++ more.0, more.1)
  ]

  get_keys_lem :
      (keys : List (Bytes × Option Bytes)) (size : ℕ) (text : Bytes) (w : W)
      → length text < size
      → length text + length (answers keys w).0 < 2 ^ 31
      → get_keys maps keys size text w ≡ some (text ++ (answers keys w).0, (answers keys w).1)
  unfolding get_keys
  get_keys_lem [] size text w h k = rw (append-nil) refl
  get_keys_lem ((key, rest) ∷ keys) size text w h k = elim (Option-cases (find_key key maps)) [
    | inl e ↦ ground (arith, e, get_keys_lem keys size text w)
    | inr (f, e) ↦
        let value = (read_value f w).0 in
        let more = answers keys (read_value f w).1 in
        let text' = text ++ line key value in
        let size' = grown size text key value in
        ground (
          arith,
          e,
          get_keys_lem keys size' text' (read_value f w).1,
          add_answer_lem size' text key value,
          grown_enough size text key value,
          length-append text (line key value),
          length-line key value,
          length-append (line key value) more.0,
          append_assoc text (line key value) more.0,
        )
  ]

  -- The answer to a GET request is "key:value;" for each key that has an entry, in order, with the value
  -- of its first entry (empty without a get function). While it is shorter than 2^31 no write leaves
  -- its buffer.
  pub get_reply_lem :
      (msg : Bytes) (w : W)
      → length (answers (tokens b';' msg) w).0 < 2 ^ 31
      → get_reply maps msg w ≡ some (answers (tokens b';' msg) w)
  unfolding get_reply
  get_reply_lem msg w h = get_keys_lem (tokens b';' msg) 1024 [] w (omega arith) (omega arith)
