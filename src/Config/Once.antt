-- ===== src/Config/Once.antt =====
-- The configuration of common/rmt_config.c is read once between the start and `rmt_config_deinit`, and what the
-- start of a server or an agent settles on.
use mathlib.Core.Option
use rmt_library.Common.{◌≡◌, refl, true, none, some, arith}
use rmt_library.Config.{
  Globals, Outside, config_init, config_deinit, config_path, read_file, init_rmt_cfg,
}

-- After a first reading, no environment changes the configuration until its end; then it is what a reading from the
-- defaults gives, whatever it was before.
pub config_init_once :
    (env env' : Outside) (g g' : Globals)
    → config_init env g ≡ some g'
    → (config_init env' g' ≡ some g')
      × (config_init env' (config_deinit g') ≡ (elim (env'.open_file (config_path env')) [
        | none ↦ some (record { cfg = init_rmt_cfg; is_init = true })
        | some file ↦
            Option.map
              (λ c. let x : Globals = record { cfg = c; is_init = true } in x)
              (read_file file init_rmt_cfg)
      ]))
unfolding config_init config_deinit
config_init_once env env' g g' e = (ground (arith, e), refl)
