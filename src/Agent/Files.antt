-- ===== src/Agent/Files.antt =====
-- The IMPORT and EXPORT branches of `recv_request` in agent/datainfo_agent.c. The disk and the callbacks of
-- the user act on a world `W`; a null name is `none`. The result `none` is a fault. `malloc` succeeds.
pub mod Names
use mathlib.Core.Option
use rmt_library.Common.{
  ℕ, ◌+◌, ◌%◌, ◌^◌, signed32, Bool, true, false, if◌then◌else◌, ltb, Option, none, some, List, [],
  ◌∷◌, ◌++◌, Bytes, length, str_eq, ℤ, print_int,
}
use rmt_library.Strings.{strtok, saved}

-- `fileinfo_func`; the functions get a name, a buffer and its length, and return an `int`. A null or ended `g_fileinfo_func_maps` is the list's end.
pub record FileFunc (W : Type 0) : Type 0 where
  pub callbackname : Bytes
  pub path : Option Bytes
  pub import_func : Option (Option Bytes → Bytes → ℤ → W → ℤ × W)
  pub export_func : Option (Option Bytes → Option Bytes → ℤ → W → ℤ × W)

-- a size as the `int` that a function of the user is passed, and the size of a buffer that may be null
abbrev pub as_int : ℕ → ℤ
as_int n = signed32 (n % 2 ^ 32)

abbrev pub size_of : Option Bytes → ℕ
size_of none = 0
size_of (some content) = length content

-- The files: `save` is `fopen` for writing, `fwrite` and `fclose`, and `load` the same for reading; `none` is
-- a null result of `fopen`.
pub record Disk (W : Type 0) : Type 0 where
  pub save : Bytes → Bytes → W → Option W
  pub load : Bytes → W → Option Bytes

-- `callbackname` and `filename`, by two calls of `strtok`
unfoldable pub names : Bytes → Option Bytes × Option Bytes
names msg = elim (strtok b';' msg) [
  | none ↦ (none, none)
  | some t ↦ (some t.0, Option.map (λ u. u.0) (strtok b';' (saved t.1)))
]

-- `sprintf(filepath, "%s/%s", path, filename)` in `filepath[1024]`; a null name has no text to print.
pub file_path : Bytes → Option Bytes → Option Bytes
file_path path none = none
file_path path (some filename) =
    let text = path ++ (b'/' ∷ filename) in if ltb (length text) 1024 then some text else none

module _ {W : Type 0} where
  -- the first entry with a name; a null name is compared, and so read, if there is any entry
  unfoldable pub find_callback : Option Bytes → List (FileFunc W) → Option (Option (FileFunc W))
  find_callback name [] = some none
  find_callback none (f ∷ maps) = none
  find_callback (some name) (f ∷ maps) =
      if str_eq name f.callbackname then some (some f) else find_callback (some name) maps

  -- "save the file": the result of `fopen` is not looked at before it is written through
  pub save_file : Disk W → FileFunc W → Option Bytes → Bytes → W → Option W
  save_file disk f filename content w = elim f.path [
    | none ↦ some w
    | some path ↦ (elim (file_path path filename) [ none ↦ none | some p ↦ disk.save p content w ])
  ]

  -- the message of the answer to an IMPORT request; it is empty where no function was called
  pub import_reply : Disk W → List (FileFunc W) → Bytes → Bytes → W → Option (Bytes × W)
  import_reply disk maps msg binary w = elim (find_callback (names msg).0 maps) [
    | none ↦ none
    | some none ↦ some ([], w)
    | some (some f) ↦ (elim (save_file disk f (names msg).1 binary w) [
      | none ↦ none
      | some w' ↦ (elim f.import_func [
        | none ↦ some ([], w')
        | some func ↦
            let r = func (names msg).1 binary (as_int (length binary)) w' in
            some (print_int r.0, r.1)
      ])
    ])
  ]

  -- "read the file": no content where there is no path, or no such file
  pub load_file : Disk W → FileFunc W → Option Bytes → W → Option (Option Bytes)
  load_file disk f filename w = elim f.path [
    | none ↦ some none
    | some path ↦ Option.map (λ p. disk.load p w) (file_path path filename)
  ]

  -- the message and the binary part of the answer to an EXPORT request
  pub export_reply : Disk W → List (FileFunc W) → Bytes → W → Option (Bytes × Option Bytes × W)
  export_reply disk maps msg w = elim (find_callback (names msg).0 maps) [
    | none ↦ none
    | some none ↦ some ([], none, w)
    | some (some f) ↦ (elim (load_file disk f (names msg).1 w) [
      | none ↦ none
      | some content ↦ (elim f.export_func [
        | none ↦ some ([], content, w)
        | some func ↦
            let r = func (names msg).1 content (as_int (size_of content)) w in
            some (print_int r.0, content, r.1)
      ])
    ])
  ]
