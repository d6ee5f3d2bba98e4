-- ===== src/Logging/Macros/Gate.antt =====
-- Which statements of the log are let through.
use transfer_server.Prelude.{
  ℕ, ◌≡◌, refl, ap, List, [], ◌∷◌, ◌++◌, ◌>>=◌, ◌∙◌, abort, none, some, ok,
}
use mathlib.Core.Path.{fun_ext}
use transfer_server.LogStream.{Item, text}
use transfer_server.Logging.{LogLevel, Start, leveled, fatal, ThreadCache}
use transfer_server.Logging.Macros.{
  Macro, log_trace, log_debug, log_info, log_warn, log_error, log_fatal, log_syserr, log_sysfatal,
  Site, Op, sets_level, logs, checks, Said, then_also, passes, start_of, log_at, run, statement,
  check_not_full,
}

-- A line that is to be logged: its place, its constructor and its items.
abbrev pub Line : Type 0
Line = Site × Start × List Item

-- A line for every statement, whatever its level, and for every pointer that is NULL.
abbrev pub lines : List Op → List Line
lines [] = []
lines (sets_level l ∷ ops) = lines ops
lines (logs s m items ∷ ops) = (s, start_of s.func m, items) ∷ lines ops
lines (checks s names none ∷ ops) = (s, leveled fatal, text names ∷ []) ∷ lines ops
lines (checks s names (some p) ∷ ops) = lines ops

module _ (stamp : ℕ → List ℕ) (strerror : ℕ → List ℕ) where
  abbrev pub log_lines : List Line → ThreadCache → Said
  log_lines [] t = ok (t, [])
  log_lines ((s, how, items) ∷ ls) t =
      then_also (log_at stamp strerror s how items t) (log_lines ls)

  statement-logs :
      (level : LogLevel) (s : Site) (m : Macro) (items : List Item) (t : ThreadCache)
      → statement stamp strerror level s m items t
        ≡ log_at stamp strerror s (start_of s.func m) items t
  unfolding statement passes
  statement-logs level s log_trace items t = refl
  statement-logs level s log_debug items t = refl
  statement-logs level s log_info items t = refl
  statement-logs level s log_warn items t = refl
  statement-logs level s log_error items t = refl
  statement-logs level s log_fatal items t = refl
  statement-logs level s (log_syserr errno) items t = refl
  statement-logs level s (log_sysfatal errno) items t = refl

  after_nothing : (m : Said) → (m >>= λ s. ok (s.0, [] ++ s.1)) ≡ m
  after_nothing (ok s) = refl
  after_nothing abort = refl

  -- The level has no effect: whatever level is set from the start or by `setLogLevel` on the way, any
  -- statements and checks do just what logging a line does for every statement, also of the lowest level,
  -- and for every pointer that is NULL, in their order.
  pub run-log_lines :
      (ops : List Op) (level : LogLevel) (t : ThreadCache)
      → run stamp strerror ops level t ≡ log_lines (lines ops) t
  unfolding run check_not_full
  run-log_lines [] level t = refl
  run-log_lines (sets_level l ∷ ops) level t = run-log_lines ops l t
  run-log_lines (logs s m items ∷ ops) level t =
      ap (λ x. then_also x (run stamp strerror ops level)) (statement-logs level s m items t)
      ∙ ap (then_also (log_at stamp strerror s (start_of s.func m) items t))
          (fun_ext (run-log_lines ops level))
  run-log_lines (checks s names none ∷ ops) level t =
      ap (then_also (log_at stamp strerror s (leveled fatal) (text names ∷ []) t))
        (fun_ext (run-log_lines ops level))
  run-log_lines (checks s names (some p) ∷ ops) level t =
      after_nothing (run stamp strerror ops level t) ∙ run-log_lines ops level t
