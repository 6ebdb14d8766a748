-- ===== src/Agent/Files/Names.antt =====
-- File requests from server/datainfo_server.c to the callbacks of agent/datainfo_agent.c.
use rmt_library.Common.{
  ℕ, ltb, if◌then◌else◌, ◌<◌, ◌≡◌, ◌≢◌, refl, Option, none, some, List, [], ◌∷◌, ◌++◌, Bytes,
  length, arith, ℤ, print_int,
}
use rmt_library.Strings.{strtok, Free}
use rmt_library.Strings.Tokens.{cut-joined, cut-Free}
use rmt_library.Agent.Files.{
  as_int, FileFunc, Disk, names, find_callback, save_file, load_file, file_path, import_reply,
  export_reply,
}

strtok-joined :
    (d : ℕ) (t rest : Bytes) → t ≢ [] → Free d t → strtok d (t ++ (d ∷ rest)) ≡ some (t, some rest)
unfolding strtok
strtok-joined d [] rest ne f = absurd (ne refl)
strtok-joined d (c ∷ t) rest ne f = ground (arith, f.0, cut-joined d (c ∷ t) rest f)

strtok-Free : (d : ℕ) (t : Bytes) → t ≢ [] → Free d t → strtok d t ≡ some (t, none)
unfolding strtok
strtok-Free d [] ne f = absurd (ne refl)
strtok-Free d (c ∷ t) ne f = ground (arith, f.0, cut-Free d (c ∷ t) f)

-- The agent reads the two names that the server has joined, if neither is empty or holds a semicolon.
pub names-joined :
    (callback filename : Bytes)
    → callback ≢ []
    → Free b';' callback
    → filename ≢ []
    → Free b';' filename
    → names (callback ++ (b';' ∷ filename)) ≡ (some callback, some filename)
unfolding names
names-joined callback filename nc fc nf ff =
    ground (arith, strtok-joined b';' callback filename nc fc, strtok-Free b';' filename nf ff)

module _ {W : Type 0} (disk : Disk W) (maps : List (FileFunc W)) where
  -- the world behind the file that an entry with a path saves
  abbrev pub stored : FileFunc W → Bytes → Bytes → W → Option W
  stored f filename content w = elim f.path [
    | none ↦ some w
    | some path ↦
        if ltb (length (path ++ (b'/' ∷ filename))) 1024
        then disk.save (path ++ (b'/' ∷ filename)) content w
        else none
  ]

  -- An IMPORT request whose two names are not empty and hold no semicolon, for an entry with an
  -- import function whose file (if it has a path) can be stored, stores the bytes that the server
  -- has sent, then calls that function, and no other, with the name, the bytes and
  -- their number as an `int`, and answers with
  -- its result in decimal.
  pub import_called :
      (callback filename binary : Bytes) (w w₁ : W) (f : FileFunc W)
      (func : Option Bytes → Bytes → ℤ → W → ℤ × W)
      → callback ≢ []
      → Free b';' callback
      → filename ≢ []
      → Free b';' filename
      → find_callback (some callback) maps ≡ some (some f)
      → stored f filename binary w ≡ some w₁
      → f.import_func ≡ some func
      → import_reply disk maps (callback ++ (b';' ∷ filename)) binary w
        ≡ some (
          print_int (func (some filename) binary (as_int (length binary)) w₁).0,
          (func (some filename) binary (as_int (length binary)) w₁).1,
        )
  unfolding import_reply save_file file_path
  import_called callback filename binary w w₁ f func nc fc nf ff found saved called =
      ground (arith, names-joined callback filename nc fc nf ff, found, saved, called)

  -- An EXPORT request whose two names are not empty and hold no semicolon, for an entry with an
  -- export function and a path, answers with the content of the file of that path and name, and
  -- with the result of the function on it, if the path fits its buffer and there is such a file.
  pub export_called :
      (callback filename path content : Bytes) (w : W) (f : FileFunc W)
      (func : Option Bytes → Option Bytes → ℤ → W → ℤ × W)
      → callback ≢ []
      → Free b';' callback
      → filename ≢ []
      → Free b';' filename
      → find_callback (some callback) maps ≡ some (some f)
      → f.path ≡ some path
      → length (path ++ (b'/' ∷ filename)) < 1024
      → disk.load (path ++ (b'/' ∷ filename)) w ≡ some content
      → f.export_func ≡ some func
      → export_reply disk maps (callback ++ (b';' ∷ filename)) w
        ≡ some (
          print_int (func (some filename) (some content) (as_int (length content)) w).0,
          some content,
          (func (some filename) (some content) (as_int (length content)) w).1,
        )
  unfolding export_reply load_file file_path
  export_called callback filename path content w f func nc fc nf ff found at fits there called =
      ground (arith, names-joined callback filename nc fc nf ff, found, at, fits, there, called)
