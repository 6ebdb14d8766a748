-- ===== src/Agent/Info.antt =====
-- The GET, SET and SET_SAME_VALUE branches of `recv_request` in agent/datainfo_agent.c. The callbacks of
-- the user are functions on a world `W`; what they do inside their own buffers is theirs. `none` is
-- a fault: a null pointer, a read behind the end of a text, or a write behind a buffer.
pub mod Get
pub mod Set
pub mod Route
use mathlib.Core.Option
use rmt_library.Common.{
  ℕ, zero, suc, ◌+◌, ◌-◌, ◌*◌, ◌%◌, ◌^◌, Bool, true, false, if◌then◌else◌, ◌==◌, ltb, leb, Option,
  none, some, List, [], ◌∷◌, ◌++◌, Bytes, length, drop, get_elem?, str_eq, ℤ, print_int,
}
use rmt_library.DataInfo.{strcat}
use rmt_library.Strings.{skip, strtok, tokens, c_str, terminate}

-- `datainfo_func`; a null callback is `none`. A null or ended `g_datainfo_func_maps` is the list's end.
pub record DataFunc (W : Type 0) : Type 0 where
  pub key : Bytes
  pub get_func : Option (W → Bytes × W)
  pub set_func : Option (Bytes → W → ℤ × W)

-- "Make sure result_msg length is enough", in `unsigned int`
abbrev pub grown : ℕ → Bytes → Bytes → Bytes → ℕ
grown size text key value =
    let new_size = (length text + length key + length value + 2) % 2 ^ 32 in
    if leb size new_size then (new_size * 2) % 2 ^ 32 else size

-- the four calls of `strcat`, in a buffer of `size` bytes
unfoldable pub add_answer : ℕ → Bytes → Bytes → Bytes → Option Bytes
add_answer size text key value = elim (strcat size text key) [
  | none ↦ none
  | some a ↦ (elim (strcat size a (b':' ∷ [])) [
    | none ↦ none
    | some b ↦ (elim (strcat size b value) [ none ↦ none | some c ↦ strcat size c (b';' ∷ []) ])
  ])
]

-- the memory behind a text that ends: the next text with its terminator, or nothing that is known
abbrev pub memory : Option Bytes → Bytes
memory none = []
memory (some s) = s ++ (0 ∷ [])

-- `key = strtok(pairs, ":")` and `value = pairs + strlen(key) + 1`, on the memory of a pair: its text, the
-- terminator, and what stands behind. The value is `none` where it lies behind the end.
pub split_pair : Bytes → Option Bytes → Option (Bytes × Option Bytes)
split_pair pair behind =
    Option.map
      (λ t.
        let at = length pair - length (skip b':' pair) + length t.0 in
        (t.0, c_str (drop (length t.0 + 1) (terminate at (pair ++ (0 ∷ memory behind))))))
      (strtok b':' pair)

-- `sprintf(msg, "%s:%d;", key, result)` in `msg[128]`, and `strcat` to `result_msg`
pub add_result : Bytes → Bytes → ℤ → Option Bytes
add_result text key result =
    let line = key ++ (b':' ∷ (print_int result ++ (b';' ∷ []))) in
    if ltb (length line) 128 then strcat 1024 text line else none

-- what stands behind a token: the rest of the list, or what is behind the list
abbrev pub behind_token : Option Bytes → Option Bytes → Option Bytes
behind_token (some rest) beyond = some rest
behind_token none beyond = beyond

module _ {W : Type 0} where
  -- the search for a key among the entries, from the first
  unfoldable pub find_key : Bytes → List (DataFunc W) → Option (DataFunc W)
  find_key key [] = none
  find_key key (f ∷ maps) = if str_eq key f.key then some f else find_key key maps

  -- the value that `get_func` leaves in its zeroed buffer
  unfoldable pub read_value : DataFunc W → W → Bytes × W
  read_value f w = elim f.get_func [ none ↦ ([], w) | some get ↦ get w ]

  -- the loop over the keys of a GET request: the size of `result_msg`, its text, and the world
  unfoldable pub get_keys :
      List (DataFunc W) → List (Bytes × Option Bytes) → ℕ → Bytes → W → Option (Bytes × W)
  get_keys maps [] size text w = some (text, w)
  get_keys maps ((key, rest) ∷ keys) size text w = elim (find_key key maps) [
    | none ↦ get_keys maps keys size text w
    | some f ↦
        let value = (read_value f w).0 in
        let w' = (read_value f w).1 in
        let size' = grown size text key value in
        (elim (add_answer size' text key value) [
          | none ↦ none
          | some text' ↦ get_keys maps keys size' text' w'
        ])
  ]

  -- the message that answers a GET request
  unfoldable pub get_reply : List (DataFunc W) → Bytes → W → Option (Bytes × W)
  get_reply maps msg w = get_keys maps (tokens b';' msg) 1024 [] w

  -- the loop over the pairs of a SET request
  pub set_pairs :
      List (DataFunc W)
      → Option Bytes
      → List (Bytes × Option Bytes)
      → Bytes
      → W
      → Option (Bytes × W)
  set_pairs maps beyond [] text w = some (text, w)
  set_pairs maps beyond ((pair, rest) ∷ pairs) text w =
      elim (split_pair pair (behind_token rest beyond)) [
        | none ↦ none
        | some (key, value) ↦ (elim (find_key key maps) [
          | none ↦ set_pairs maps beyond pairs text w
          | some f ↦ (elim f.set_func [
            | none ↦ set_pairs maps beyond pairs text w
            | some set ↦ (elim value [
              | none ↦ none
              | some v ↦ (elim (add_result text key (set v w).0) [
                | none ↦ none
                | some text' ↦ set_pairs maps beyond pairs text' (set v w).1
              ])
            ])
          ])
        ])
      ]

  -- the message that answers a list of pairs, with what stands behind the list
  pub set_reply : List (DataFunc W) → Bytes → Option Bytes → W → Option (Bytes × W)
  set_reply maps pairs beyond w = set_pairs maps beyond (tokens b';' pairs) [] w

-- the search of `recv_request` for the agent's own ID: the first index that holds it
unfoldable pub found_idx : ℕ → List ℕ → Option ℕ
found_idx my_id [] = none
found_idx my_id (id ∷ ids) = if my_id == id then some 0 else Option.map suc (found_idx my_id ids)

-- the list of pairs for an index of a SET request, and what stands behind it
pub pick_list : ℕ → Bytes → Option (Bytes × Option Bytes)
pick_list idx msg = get_elem? (tokens b'|' msg) idx
