-- ===== src/Logging/Macros.antt =====
-- The macros of include/Logging.h, the level that `setLogLevel` sets, and `CheckNotFull`. The variables of
-- the thread go from statement to statement.
pub mod Gate
use transfer_server.Prelude.{
  ℕ, ◌>>=◌, Bool, true, false, List, [], ◌∷◌, ◌++◌, Option, none, some, Checked, ok, if◌then◌else◌,
  leb,
}
use transfer_server.LogStream.{Item, text}
use transfer_server.Logging.{
  LogLevel, trace, debug, info, warn, error, fatal, Start, leveled, named, system, ThreadCache,
  Output, log,
}

-- The enumerators are numbered from 0 on.
abbrev pub rank : LogLevel → ℕ
rank trace = 0
rank debug = 1
rank info = 2
rank warn = 3
rank error = 4
rank fatal = 5

-- The value `Logger::LogLevel()` of the enumeration, made from nothing: the one numbered 0.
abbrev pub zero_level : LogLevel
zero_level = trace

-- LOG_TRACE, LOG_DEBUG, LOG_INFO, LOG_WARN, LOG_ERROR, LOG_FATAL, and with what stands in errno LOG_SYSERR
-- and LOG_SYSFATAL.
pub data Macro : Type 0 where
  log_trace log_debug log_info log_warn log_error log_fatal : Macro
  log_syserr log_sysfatal : ℕ → Macro

-- The condition in front of the statement, where `g_logLevel` is `level`.
unfoldable pub passes : LogLevel → Macro → Bool
passes level log_trace = leb (rank zero_level) (rank trace)
passes level log_debug = leb (rank zero_level) (rank debug)
passes level log_info = leb (rank zero_level) (rank info)
passes level _ = true

-- The constructor of `Logger` that the macro calls in the function `func`.
abbrev pub start_of : List ℕ → Macro → Start
start_of func log_trace = named trace func
start_of func log_debug = named debug func
start_of func log_info = named info func
start_of func log_warn = leveled warn
start_of func log_error = leveled error
start_of func log_fatal = leveled fatal
start_of func (log_syserr errno) = system false errno
start_of func (log_sysfatal errno) = system true errno

-- Where a statement stands, and when and in which thread it runs.
pub record Site : Type 0 where
  pub micros : ℕ
  pub tid : ℕ
  pub file : List ℕ
  pub line : ℕ
  pub func : List ℕ

pub data Op : Type 0 where
  sets_level : LogLevel → Op
  logs : Site → Macro → List Item → Op
  checks : Site → List ℕ → Option ℕ → Op

-- What some statements hand over, and the variables of the thread after them.
abbrev pub Said : Type 0
Said = Checked (ThreadCache × List Output)

abbrev pub then_also : Said → (ThreadCache → Said) → Said
then_also first others = first >>= λ r. others r.0 >>= λ s. ok (s.0, r.1 ++ s.1)

module _ (stamp : ℕ → List ℕ) (strerror : ℕ → List ℕ) where
  abbrev pub log_at : Site → Start → List Item → ThreadCache → Said
  log_at s how items t = log stamp strerror s.micros s.tid how s.file s.line items t

  -- A statement of the log.
  unfoldable pub statement : LogLevel → Site → Macro → List Item → ThreadCache → Said
  unfolding passes
  statement level s m items t =
      if passes level m then log_at s (start_of s.func m) items t else ok (t, [])

  -- `CheckNotFull`, which gives the pointer back as it is.
  unfoldable pub check_not_full : Site → List ℕ → Option ℕ → ThreadCache → Said
  check_not_full s names none t = log_at s (leveled fatal) (text names ∷ []) t
  check_not_full s names (some _) t = ok (t, [])

  unfoldable pub run : List Op → LogLevel → ThreadCache → Said
  unfolding statement check_not_full
  run [] level t = ok (t, [])
  run (sets_level l ∷ ops) level t = run ops l t
  run (logs s m items ∷ ops) level t = then_also (statement level s m items t) (run ops level)
  run (checks s names ptr ∷ ops) level t = then_also (check_not_full s names ptr t) (run ops level)
