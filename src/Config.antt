-- ===== src/Config.antt =====
-- common/rmt_config.c: the configuration and its file. The functions of the C library that read the file, and what
-- the system says of the environment and of the network, are arguments; `none` is a write behind a
-- buffer. A file is the list of its bytes.
pub mod Scan
pub mod Render
pub mod Words
pub mod Print
pub mod Once
pub mod Overflow
use Prim.Native.Char.{code}
use Prim.Native.String.{String}
use mathlib.Core.Option
use rmt_library.Common.{
  ℕ, zero, suc, ◌+◌, ◌*◌, ◌/◌, ◌^◌, Bool, true, false, ◌||◌, if◌then◌else◌, ◌==◌, ltb, Option, none,
  some, List, [], ◌∷◌, ◌++◌, Bytes, length, str_eq, ℤ, pos, low32, signed32, atoi, print_int,
  is_space,
}
use rmt_library.Strings.{cut}
use rmt_library.Types.{Runtime}
use rmt_library.Network.{Interface, select_interface, get_ip, generate_id}

-- `rmt_config`, built without SUPPORT_ZENOH
pub record Config : Type 0 where
  pub net_interface : Bytes
  pub domain_id : ℤ
  pub auto_detect_interface : ℤ
  pub logfile : Bytes
  pub reply_timeout : ℤ
  pub device_id : ℕ
  pub datainfo_val_size : ℕ
  pub devinfo_size : ℕ
  pub keepalive_time : ℕ

abbrev pub codes : String → Bytes
codes String.[] = []
codes (String.◌∷◌ c s) = code c ∷ codes s

-- `init_rmt_cfg`
abbrev pub init_rmt_cfg : Config
init_rmt_cfg = record {
  net_interface = [];
  domain_id = pos 0;
  auto_detect_interface = pos 1;
  logfile = codes "stderr";
  reply_timeout = pos 3;
  device_id = 0;
  datainfo_val_size = 256;
  devinfo_size = 1024;
  keepalive_time = 5;
}

-- the rows of `g_config_mapping`
pub data Field : Type 0 where
  interface domain switch_interface log_file timeout id datainfo devinfo keepalive : Field

-- `name`
abbrev pub name_of : Field → Bytes
name_of interface = codes "interface"
name_of domain = codes "domain"
name_of switch_interface = codes "switch_interface"
name_of log_file = codes "logfile"
name_of timeout = codes "reply_timeout"
name_of id = codes "device_id"
name_of datainfo = codes "datainfo_size"
name_of devinfo = codes "devinfo_size"
name_of keepalive = codes "keepalive_time"

abbrev pub config_mapping : List Field
config_mapping =
    interface ∷ domain ∷ switch_interface ∷ log_file ∷ timeout ∷ id ∷ datainfo ∷ devinfo ∷ keepalive
    ∷ []

-- the search for a key in `g_config_mapping`
abbrev pub find_field : Bytes → List Field → Option Field
find_field key [] = none
find_field key (f ∷ fields) = if str_eq (name_of f) key then some f else find_field key fields

-- A write of `int` size to a field of 64 bits leaves its upper half.
abbrev pub put_low : ℤ → ℕ → ℕ
put_low z old = old / 2 ^ 32 * 2 ^ 32 + low32 z

-- `strcpy` into a field of 40 bytes
abbrev pub fits40 : Bytes → Bool
fits40 v = ltb (length v) 40

-- the write of a value: `strcpy` for CONFIG_STRING, and the `int` of `atoi` for CONFIG_INT
unfoldable pub store : Field → Bytes → Config → Option Config
store interface v c = if fits40 v then some (record c { net_interface = v }) else none
store domain v c = some (record c { domain_id = signed32 (low32 (atoi v)) })
store switch_interface v c = some (record c { auto_detect_interface = signed32 (low32 (atoi v)) })
store log_file v c = if fits40 v then some (record c { logfile = v }) else none
store timeout v c = some (record c { reply_timeout = signed32 (low32 (atoi v)) })
store id v c = some (record c { device_id = put_low (atoi v) c.device_id })
store datainfo v c = some (record c { datainfo_val_size = put_low (atoi v) c.datainfo_val_size })
store devinfo v c = some (record c { devinfo_size = put_low (atoi v) c.devinfo_size })
store keepalive v c = some (record c { keepalive_time = put_low (atoi v) c.keepalive_time })

-- `%s`: the text up to the next white space, behind the white space in front of it
unfoldable pub word : Bytes → Bytes
word [] = []
word (c ∷ s) = let rest = word s in if is_space c then [] else c ∷ rest

unfoldable pub skip_space : Bytes → Bytes
skip_space [] = []
skip_space (c ∷ s) = let rest = skip_space s in if is_space c then rest else c ∷ s

-- `sscanf(line, "%[^:]:%s", key, value)` with `key[128]` and `value[256]`; the inner `none` is a result
-- other than 2.
unfoldable pub scan_line : Bytes → Option (Option (Bytes × Bytes))
scan_line line =
    let (key, rest) = cut b':' line in
    if length key == 0
    then some none
    else if ltb (length key) 128
    then (elim rest [
      | none ↦ some none
      | some r ↦
          let value = word (skip_space r) in
          if length value == 0
          then some none
          else if ltb (length value) 256
          then some (some (key, value))
          else none
    ])
    else none

-- "This is comment"
abbrev pub is_skipped : Bytes → Bool
is_skipped [] = false
is_skipped (c ∷ s) = c == b'#' || c == 10

-- one round of the loop on a line; a C function sees it up to its first zero byte
unfoldable pub read_line : Bytes → Config → Option Config
read_line line c =
    let text = (cut 0 line).0 in
    if is_skipped text then some c else (elim (scan_line text) [
      | none ↦ none
      | some none ↦ some c
      | some (some (key, value)) ↦ (elim (find_field key config_mapping) [
        | none ↦ some c
        | some f ↦ store f value c
      ])
    ])

-- `fgets`: at most `n` bytes, up to a newline; and what is left of the file
unfoldable pub fgets : ℕ → Bytes → Bytes × Bytes
fgets zero s = ([], s)
fgets (suc n) [] = ([], [])
fgets (suc n) (c ∷ s) = let r = fgets n s in if c == 10 then (c ∷ [], s) else (c ∷ r.0, r.1)

-- The loop over the lines, with `LINE_LEN` 1024. Each round takes a byte, so that as many rounds as
-- the file has bytes are enough.
unfoldable pub read_lines : ℕ → Bytes → Config → Option Config
read_lines zero s c = some c
read_lines (suc fuel) s c = elim s [
  | [] ↦ some c
  | ch ∷ rest ↦
      let (line, left) = fgets 1023 (ch ∷ rest) in
      (elim (read_line line c) [ none ↦ none | some c' ↦ read_lines fuel left c' ])
]

abbrev pub read_file : Bytes → Config → Option Config
read_file file c = read_lines (length file) file c

-- `g_rmt_cfg` and `g_rmt_cfg_status`, and what `rmt_config_init` finds outside: `getenv` and `fopen`
pub record Globals : Type 0 where
  pub cfg : Config
  pub is_init : Bool

pub record Outside : Type 0 where
  pub rmt_config : Option Bytes
  pub open_file : Bytes → Option Bytes

abbrev pub config_path : Outside → Bytes
config_path env = elim env.rmt_config [ none ↦ codes "./rmt.conf" | some path ↦ path ]

-- `rmt_config_init`
unfoldable pub config_init : Outside → Globals → Option Globals
config_init env g = if g.is_init then some g else (elim (env.open_file (config_path env)) [
  | none ↦ some (record g { cfg = init_rmt_cfg; is_init = true })
  | some file ↦ Option.map (λ c. record g { cfg = c; is_init = true }) (read_file file init_rmt_cfg)
])

-- `rmt_config_runtime_init`, with the interfaces of the system and the address of each
unfoldable pub runtime_init :
    List Interface → (Bytes → Bytes) → Globals → Runtime → Globals × Runtime
runtime_init interfaces address g r =
    let chosen =
      if length g.cfg.net_interface == 0
      then select_interface interfaces
      else some g.cfg.net_interface in
    elim chosen [
      | none ↦ (g, r)
      | some name ↦ (elim (get_ip address name 40) [
        | none ↦ (g, record r { net_interface = name })
        | some ip ↦ (
          if g.cfg.device_id == 0
              then record g { cfg = record g.cfg { device_id = generate_id interfaces } }
              else g,
          record { net_interface = name; net_ip = ip },
        )
      ])
    ]

-- `rmt_config_deinit`
unfoldable pub config_deinit : Globals → Globals
config_deinit g = record g { is_init = false }

-- the value of a row, as `rmt_config_print` prints it
abbrev pub value_of : Field → Config → Bytes
value_of interface c = c.net_interface
value_of domain c = print_int c.domain_id
value_of switch_interface c = print_int c.auto_detect_interface
value_of log_file c = c.logfile
value_of timeout c = print_int c.reply_timeout
value_of id c = print_int (signed32 (low32 (pos c.device_id)))
value_of datainfo c = print_int (signed32 (low32 (pos c.datainfo_val_size)))
value_of devinfo c = print_int (signed32 (low32 (pos c.devinfo_size)))
value_of keepalive c = print_int (signed32 (low32 (pos c.keepalive_time)))

-- the lines of `rmt_config_print`, without the prefix of the log
unfoldable pub print_rows : List Field → Config → Bytes
print_rows [] c = []
print_rows (f ∷ fields) c =
    name_of f ++ (b':' ∷ (b' ' ∷ (value_of f c ++ (10 ∷ print_rows fields c))))

abbrev pub config_print : Config → Bytes
config_print c = print_rows config_mapping c
