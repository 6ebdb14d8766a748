-- ===== src/Logger.antt =====
-- common/logger.c and the RMT_LOG of common/logger.h: which file a message of the log goes to. Whether `fopen`
-- succeeds is an argument; the text of a message is not modelled.
use rmt_library.Common.{
  Bool, true, false, if◌then◌else◌, Option, none, some, Bytes, str_eq, ◌≡◌, refl, Bool-cases, inl,
  inr,
}
use rmt_library.Config.{codes}

-- a file of the log
pub data Stream : Type 0 where
  stderr : Stream
  opened : Bytes → Stream

-- `g_fp` and `g_log_disable`
pub record Log : Type 0 where
  pub fp : Option Stream
  pub log_disable : Bool

-- the statics at the start of the program
abbrev pub closed : Log
closed = record { fp = none; log_disable = false }

-- `log_init`, for a configured file that can be opened or not
unfoldable pub log_init : Bytes → Bool → Log → Log
log_init logfile opens l =
    if str_eq logfile (codes "none")
    then record l { log_disable = true }
    else if str_eq logfile (codes "stderr")
    then record l { fp = some stderr }
    else record l { fp = if opens then some (opened logfile) else some stderr }

-- `log_deinit`
unfoldable pub log_deinit : Bytes → Log → Log
log_deinit logfile l =
    if str_eq logfile (codes "none")
    then record l { log_disable = false }
    else record l { fp = none }

-- the stream that RMT_LOG, RMT_WARN and RMT_ERROR print to
unfoldable pub target : Log → Option Stream
target l = if l.log_disable then none else (elim l.fp [ none ↦ some stderr | some f ↦ some f ])

-- Once the log is initialised, a message goes nowhere exactly if the configured name is "none", to the file if
-- that was opened, and to the screen otherwise; and the end of the log restores the start.
pub target-log_init :
    (logfile : Bytes) (opens : Bool)
    → (target (log_init logfile opens closed) ≡ (
        if str_eq logfile (codes "none")
        then none
        else if str_eq logfile (codes "stderr")
        then some stderr
        else if opens
        then some (opened logfile)
        else some stderr))
      × (log_deinit logfile (log_init logfile opens closed) ≡ closed)
unfolding log_init log_deinit target
target-log_init logfile opens = elim (Bool-cases (str_eq logfile (codes "none"))) [
  | inl off ↦ (rw off refl, rw off refl)
  | inr on ↦ elim (Bool-cases (str_eq logfile (codes "stderr"))) [
    | inl screen ↦ (rw (on, screen) refl, rw (on, screen) refl)
    | inr file ↦ elim (Bool-cases opens) [
      | inl yes_open ↦ (rw (on, file, yes_open) refl, rw (on, file) refl)
      | inr not_open ↦ (rw (on, file, not_open) refl, rw (on, file) refl)
    ]
  ]
]
