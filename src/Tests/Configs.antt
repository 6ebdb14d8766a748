-- ===== src/Tests/Configs.antt =====
-- Runs of common/rmt_config.c and common/logger.c: the configuration of the repository's rmt.conf, and a line that is
-- too long.
use rmt_library.Common.{
  ℕ, zero, suc, ◌==◌, ◌≡◌, refl, true, false, some, none, List, [], ◌∷◌, ◌++◌, Bytes, pos, arith,
  print_int, print_ℕ, digits, atoi, All,
}
use rmt_library.Strings.{cut, Free}
use rmt_library.Config.{
  Config, codes, init_rmt_cfg, read_file, read_lines, read_line, fgets, scan_line, word, skip_space,
  store, config_print, print_rows,
}
use rmt_library.Config.Render.{
  Line, comment, blank, setting, unset, plain, render, IsLine, IsKey, read_file-render,
}
use rmt_library.Config.Print.{IsPrintable, read_file-config_print}
use rmt_library.Config.Overflow.{read_file-key_long}
use rmt_library.Logger.{opened, closed, log_init, log_deinit, target, target-log_init}

abbrev config : Config
config = record {
  net_interface = codes "enp1s0";
  domain_id = pos 30;
  auto_detect_interface = pos 1;
  logfile = codes "stderr";
  reply_timeout = pos 3;
  device_id = 6166;
  datainfo_val_size = 256;
  devinfo_size = 1024;
  keepalive_time = 5;
}

config-IsPrintable : IsPrintable config
config-IsPrintable = record {
  interface_word = (refl, (refl, (refl, (refl, (refl, (refl, tt))))));
  interface_no_end = (refl, (refl, (refl, (refl, (refl, (refl, tt))))));
  interface_fits = omega arith;
  logfile_word = (refl, (refl, (refl, (refl, (refl, (refl, tt))))));
  logfile_no_end = (refl, (refl, (refl, (refl, (refl, (refl, tt))))));
  logfile_some = cc;
  logfile_fits = omega arith;
  domain_int = omega arith;
  auto_int = omega arith;
  timeout_int = omega arith;
  id_fits = omega arith;
  datainfo_fits = omega arith;
  devinfo_fits = omega arith;
  keepalive_fits = omega arith;
}

read_file-config_print_example : read_file (config_print config) init_rmt_cfg ≡ some config
read_file-config_print_example = read_file-config_print config config-IsPrintable

-- the same by a run of the code
config_run : read_file (config_print config) init_rmt_cfg ≡ some config
unfolding read_lines read_line fgets scan_line word skip_space store print_rows cut print_int
    print_ℕ digits atoi
config_run = refl

domain-IsKey : IsKey (codes "domain")
domain-IsKey = record {
  key_some = cc;
  no_comment = refl;
  no_colon = (refl, (refl, (refl, (refl, (refl, (refl, tt))))));
  no_newline = (refl, (refl, (refl, (refl, (refl, (refl, tt))))));
  no_end = (refl, (refl, (refl, (refl, (refl, (refl, tt))))));
  key_fits = omega arith;
}

-- a comment, a setting, an empty line, a setting of the same key, and two syntax errors
abbrev lines : List Line
lines =
    comment (codes "d")
    ∷ setting (codes "domain") 1 (codes "30")
    ∷ blank
    ∷ setting (codes "domain") 0 (codes "7")
    ∷ unset (codes "domain") 2
    ∷ plain (codes "domain")
    ∷ []

lines-IsLine : All IsLine lines
lines-IsLine = (
  ((refl, tt), omega arith),
  (
    record {
      named = domain-IsKey;
      value_some = cc;
      one_word = (refl, (refl, tt));
      value_no_end = (refl, (refl, tt));
      value_fits = omega arith;
      line_fits = omega arith;
    },
    (
      tt,
      (
        record {
          named = domain-IsKey;
          value_some = cc;
          one_word = (refl, tt);
          value_no_end = (refl, tt);
          value_fits = omega arith;
          line_fits = omega arith;
        },
        ((domain-IsKey, omega arith), (domain-IsKey, tt)),
      ),
    ),
  ),
)

read_file-render_example :
    read_file (render lines) init_rmt_cfg ≡ some (record init_rmt_cfg { domain_id = pos 7 })
unfolding store atoi
read_file-render_example = read_file-render lines init_rmt_cfg lines-IsLine

-- so many times "k"
abbrev keys : ℕ → Bytes → Bytes
keys zero s = s
keys (suc n) s = b'k' ∷ keys n s

keys-Free : (d n : ℕ) (s : Bytes) → (b'k' == d) ≡ false → Free d s → Free d (keys n s)
keys-Free d zero s h f = f
keys-Free d (suc n) s h f = (h, keys-Free d n s h f)

read_file-key_long_example :
    read_file (render lines ++ (keys 128 (codes ": v") ++ (10 ∷ codes "domain: 1"))) init_rmt_cfg
    ≡ none
unfolding store atoi cut
read_file-key_long_example =
    read_file-key_long lines (keys 128 (codes ": v")) (codes "domain: 1") init_rmt_cfg
      (record init_rmt_cfg { domain_id = pos 7 }) lines-IsLine refl
      (keys-Free 10 128 (codes ": v") refl (refl, (refl, (refl, tt))))
      (keys-Free 0 128 (codes ": v") refl (refl, (refl, (refl, tt)))) refl (omega arith)
      (omega arith)

target-log_init_test :
    (target (log_init (codes "/tmp/l") true closed) ≡ some (opened (codes "/tmp/l")))
    × (log_deinit (codes "/tmp/l") (log_init (codes "/tmp/l") true closed) ≡ closed)
target-log_init_test = target-log_init (codes "/tmp/l") true
