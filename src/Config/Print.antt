-- ===== src/Config/Print.antt =====
-- What `rmt_config_print` of common/rmt_config.c prints is a configuration file for the same configuration.
use mathlib.Core.List.{append_assoc}
use rmt_library.Common.{
  ℕ, ◌%◌, ◌^◌, ◌<◌, ◌≡◌, ◌≢◌, refl, ap, Option, some, List, [], ◌∷◌, ◌++◌, Bytes, length, arith,
  All, ◌∙◌, sym, ℤ, print_int, atoi, atoi-print_int, low32, signed32, IsInt, signed32-low32,
  low32-signed32, signed32-IsInt, map, drop,
}
use rmt_library.Strings.{Free}
use rmt_library.Config.{
  Config, Field, interface, domain, switch_interface, log_file, timeout, id, datainfo, devinfo,
  keepalive, name_of, config_mapping, value_of, print_rows, config_print, read_file, init_rmt_cfg,
  store, put_low,
}
use rmt_library.Config.Scan.{IsWord}
use rmt_library.Config.Render.{
  Line, setting, unset, body, render, IsKey, IsLine, assign, assign_all, read_file-render,
}
use rmt_library.Config.Words.{print_int-IsValue, name_of-IsKey, find_field-name_of}

-- A configuration that a file can hold: texts of one word that fit their fields (only the interface may be
-- empty), and numbers that an `int` of the file can carry.
pub record IsPrintable (c : Config) : Type 0 where
  pub interface_word : IsWord c.net_interface
  pub interface_no_end : Free 0 c.net_interface
  pub interface_fits : length c.net_interface < 40
  pub logfile_word : IsWord c.logfile
  pub logfile_no_end : Free 0 c.logfile
  pub logfile_some : c.logfile ≢ []
  pub logfile_fits : length c.logfile < 40
  pub domain_int : IsInt c.domain_id
  pub auto_int : IsInt c.auto_detect_interface
  pub timeout_int : IsInt c.reply_timeout
  pub id_fits : c.device_id < 2 ^ 32
  pub datainfo_fits : c.datainfo_val_size < 2 ^ 32
  pub devinfo_fits : c.devinfo_size < 2 ^ 32
  pub keepalive_fits : c.keepalive_time < 2 ^ 32

-- the line of a row
abbrev line_with : Bytes → Bytes → Line
line_with name [] = unset name 1
line_with name (v ∷ value) = setting name 1 (v ∷ value)

abbrev row : Config → Field → Line
row c f = line_with (name_of f) (value_of f c)

body-line_with :
    (name value rest : Bytes)
    → body (line_with name value) ++ (10 ∷ rest) ≡ name ++ (b':' ∷ (b' ' ∷ (value ++ (10 ∷ rest))))
body-line_with name [] rest = append_assoc name (b':' ∷ (b' ' ∷ [])) (10 ∷ rest)
body-line_with name (v ∷ value) rest = append_assoc name (b':' ∷ (b' ' ∷ v ∷ value)) (10 ∷ rest)

print_rows-render :
    (fields : List Field) (c : Config) → print_rows fields c ≡ render (map (row c) fields)
unfolding print_rows
print_rows-render [] c = refl
print_rows-render (f ∷ fields) c =
    ap (λ l. name_of f ++ (b':' ∷ (b' ' ∷ (value_of f c ++ (10 ∷ l))))) (print_rows-render fields c)
    ∙ sym (body-line_with (name_of f) (value_of f c) (render (map (row c) fields)))

line_with-IsLine :
    (name value : Bytes)
    → IsKey name
    → length name < 17
    → IsWord value
    → Free 0 value
    → length value < 40
    → IsLine (line_with name value)
line_with-IsLine name [] k n w z s = (k, omega arith)
line_with-IsLine name (v ∷ value) k n w z s = record {
  named = k;
  value_some = cc;
  one_word = w;
  value_no_end = z;
  value_fits = omega arith;
  line_fits = omega arith;
}

of_int :
    (z : ℤ) → IsInt z → IsWord (print_int z) × Free 0 (print_int z) × (length (print_int z) < 40)
of_int z h = let v = print_int-IsValue z h in (v.one_word, v.no_end, v.short)

value_of-fits :
    (c : Config) (f : Field)
    → IsPrintable c
    → IsWord (value_of f c) × Free 0 (value_of f c) × (length (value_of f c) < 40)
value_of-fits c interface p = (p.interface_word, p.interface_no_end, p.interface_fits)
value_of-fits c log_file p = (p.logfile_word, p.logfile_no_end, p.logfile_fits)
value_of-fits c domain p = of_int c.domain_id p.domain_int
value_of-fits c switch_interface p = of_int c.auto_detect_interface p.auto_int
value_of-fits c timeout p = of_int c.reply_timeout p.timeout_int
value_of-fits c id p =
    of_int (signed32 (c.device_id % 2 ^ 32)) (signed32-IsInt (c.device_id % 2 ^ 32) (omega arith))
value_of-fits c datainfo p =
    of_int (signed32 (c.datainfo_val_size % 2 ^ 32))
      (signed32-IsInt (c.datainfo_val_size % 2 ^ 32) (omega arith))
value_of-fits c devinfo p =
    of_int (signed32 (c.devinfo_size % 2 ^ 32))
      (signed32-IsInt (c.devinfo_size % 2 ^ 32) (omega arith))
value_of-fits c keepalive p =
    of_int (signed32 (c.keepalive_time % 2 ^ 32))
      (signed32-IsInt (c.keepalive_time % 2 ^ 32) (omega arith))

assign-line_with :
    (f : Field) (v : Bytes) (d : Config) → v ≢ [] → assign (line_with (name_of f) v) d ≡ store f v d
assign-line_with f [] d ne = absurd (ne refl)
assign-line_with f (x ∷ v) d ne = rw (find_field-name_of f, assign) refl

-- an `int` of the file, in a field of `int` size and in one of 64 bits
int_back : (z : ℤ) → IsInt z → signed32 (low32 (atoi (print_int z))) ≡ z
int_back z h = ap (λ y. signed32 (low32 y)) (atoi-print_int z) ∙ signed32-low32 z h

long_back :
    (n old : ℕ)
    → n < 2 ^ 32
    → old < 2 ^ 32
    → put_low (atoi (print_int (signed32 (n % 2 ^ 32)))) old ≡ n
long_back n old h k =
    let small : n % 2 ^ 32 ≡ n = omega arith in
    let back : low32 (atoi (print_int (signed32 n))) ≡ n =
      ap low32 (atoi-print_int (signed32 n)) ∙ low32-signed32 n h in
    rw small (omega (arith, back))

int_ne : (z : ℤ) → IsInt z → print_int z ≢ []
int_ne z h = (print_int-IsValue z h).value_some

long_ne : (n : ℕ) → print_int (signed32 (n % 2 ^ 32)) ≢ []
long_ne n = int_ne (signed32 (n % 2 ^ 32)) (signed32-IsInt (n % 2 ^ 32) (omega arith))

module _ (c : Config) (p : IsPrintable c) where
  read-interface :
      assign (row c interface) init_rmt_cfg
      ≡ some (record init_rmt_cfg { net_interface = c.net_interface })
  unfolding store
  read-interface = by_cases c.net_interface p.interface_fits
    where
      by_cases :
          (v : Bytes)
          → length v < 40
          → assign (line_with (name_of interface) v) init_rmt_cfg
            ≡ some (record init_rmt_cfg { net_interface = v })
      by_cases [] h = refl
      by_cases (x ∷ v) h = ground arith

  read-logfile : (d : Config) → assign (row c log_file) d ≡ some (record d { logfile = c.logfile })
  unfolding store
  read-logfile d =
      assign-line_with log_file c.logfile d p.logfile_some ∙ ground (arith, p.logfile_fits)

  read-domain : (d : Config) → assign (row c domain) d ≡ some (record d { domain_id = c.domain_id })
  unfolding store
  read-domain d =
      assign-line_with domain (print_int c.domain_id) d (int_ne c.domain_id p.domain_int)
      ∙ ap (λ z. let x : Config = record d { domain_id = z } in some x)
          (int_back c.domain_id p.domain_int)

  read-switch :
      (d : Config)
      → assign (row c switch_interface) d
        ≡ some (record d { auto_detect_interface = c.auto_detect_interface })
  unfolding store
  read-switch d =
      assign-line_with switch_interface (print_int c.auto_detect_interface) d
        (int_ne c.auto_detect_interface p.auto_int)
      ∙ ap (λ z. let x : Config = record d { auto_detect_interface = z } in some x)
          (int_back c.auto_detect_interface p.auto_int)

  read-timeout :
      (d : Config) → assign (row c timeout) d ≡ some (record d { reply_timeout = c.reply_timeout })
  unfolding store
  read-timeout d =
      assign-line_with timeout (print_int c.reply_timeout) d (int_ne c.reply_timeout p.timeout_int)
      ∙ ap (λ z. let x : Config = record d { reply_timeout = z } in some x)
          (int_back c.reply_timeout p.timeout_int)

  read-id :
      (d : Config)
      → d.device_id < 2 ^ 32
      → assign (row c id) d ≡ some (record d { device_id = c.device_id })
  unfolding store
  read-id d h =
      assign-line_with id (print_int (signed32 (c.device_id % 2 ^ 32))) d (long_ne c.device_id)
      ∙ ap (λ z. let x : Config = record d { device_id = z } in some x)
          (long_back c.device_id d.device_id p.id_fits h)

  read-datainfo :
      (d : Config)
      → d.datainfo_val_size < 2 ^ 32
      → assign (row c datainfo) d ≡ some (record d { datainfo_val_size = c.datainfo_val_size })
  unfolding store
  read-datainfo d h =
      assign-line_with datainfo (print_int (signed32 (c.datainfo_val_size % 2 ^ 32))) d
        (long_ne c.datainfo_val_size)
      ∙ ap (λ z. let x : Config = record d { datainfo_val_size = z } in some x)
          (long_back c.datainfo_val_size d.datainfo_val_size p.datainfo_fits h)

  read-devinfo :
      (d : Config)
      → d.devinfo_size < 2 ^ 32
      → assign (row c devinfo) d ≡ some (record d { devinfo_size = c.devinfo_size })
  unfolding store
  read-devinfo d h =
      assign-line_with devinfo (print_int (signed32 (c.devinfo_size % 2 ^ 32))) d
        (long_ne c.devinfo_size)
      ∙ ap (λ z. let x : Config = record d { devinfo_size = z } in some x)
          (long_back c.devinfo_size d.devinfo_size p.devinfo_fits h)

  read-keepalive :
      (d : Config)
      → d.keepalive_time < 2 ^ 32
      → assign (row c keepalive) d ≡ some (record d { keepalive_time = c.keepalive_time })
  unfolding store
  read-keepalive d h =
      assign-line_with keepalive (print_int (signed32 (c.keepalive_time % 2 ^ 32))) d
        (long_ne c.keepalive_time)
      ∙ ap (λ z. let x : Config = record d { keepalive_time = z } in some x)
          (long_back c.keepalive_time d.keepalive_time p.keepalive_fits h)

  then_rows :
      (f : Field) (fields : List Field) (d : Config) {d' : Config} {o : Option Config}
      → assign (row c f) d ≡ some d'
      → assign_all (map (row c) fields) d' ≡ o
      → assign_all (map (row c) (f ∷ fields)) d ≡ o
  then_rows f fields d e g = rw (e, assign_all) g

  rows-IsLine : (fields : List Field) → All IsLine (map (row c) fields)
  rows-IsLine [] = tt
  rows-IsLine (f ∷ fields) =
      let (k, n) = name_of-IsKey f in
      let (w, z, s) = value_of-fits c f p in
      (line_with-IsLine (name_of f) (value_of f c) k n w z s, rows-IsLine fields)

  rows_back : assign_all (map (row c) config_mapping) init_rmt_cfg ≡ some c
  rows_back =
      let d₁ : Config = record init_rmt_cfg { net_interface = c.net_interface } in
      let d₂ : Config = record d₁ { domain_id = c.domain_id } in
      let d₃ : Config = record d₂ { auto_detect_interface = c.auto_detect_interface } in
      let d₄ : Config = record d₃ { logfile = c.logfile } in
      let d₅ : Config = record d₄ { reply_timeout = c.reply_timeout } in
      let d₆ : Config = record d₅ { device_id = c.device_id } in
      let d₇ : Config = record d₆ { datainfo_val_size = c.datainfo_val_size } in
      let d₈ : Config = record d₇ { devinfo_size = c.devinfo_size } in
      then_rows interface (drop 1 config_mapping) init_rmt_cfg read-interface (
        then_rows domain (drop 2 config_mapping) d₁ (read-domain d₁) (
          then_rows switch_interface (drop 3 config_mapping) d₂ (read-switch d₂) (
            then_rows log_file (drop 4 config_mapping) d₃ (read-logfile d₃) (
              then_rows timeout (drop 5 config_mapping) d₄ (read-timeout d₄) (
                then_rows id (drop 6 config_mapping) d₅ (read-id d₅ (omega arith)) (
                  then_rows datainfo (drop 7 config_mapping) d₆ (read-datainfo d₆ (omega arith)) (
                    then_rows devinfo (drop 8 config_mapping) d₇ (read-devinfo d₇ (omega arith)) (
                      then_rows keepalive (drop 9 config_mapping) d₈
                        (read-keepalive d₈ (omega arith)) refl))))))))

-- The lines that `rmt_config_print` logs for a configuration are, without the prefix of the log, a configuration
-- file that is read back, from the defaults, to exactly that configuration: if its texts are single
-- words that fit their fields (the name of the log file not empty), its `int` fields hold an `int`,
-- and its other numbers are below 2^32.
pub read_file-config_print :
    (c : Config) → IsPrintable c → read_file (config_print c) init_rmt_cfg ≡ some c
read_file-config_print c p = rw (print_rows-render config_mapping c) (
    read_file-render (map (row c) config_mapping) init_rmt_cfg (rows-IsLine c p config_mapping)
    ∙ rows_back c p)
