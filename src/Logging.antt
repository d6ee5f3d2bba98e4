-- ===== src/Logging.antt =====
-- include/Logging.h and src/Logging.cpp, and CurrentThread of src/Thread.cpp: how a line of the log is put
-- together. `strftime`-like texts of `snprintf` for a second (`stamp`) and of `strerror_r` (`strerror`)
-- are parameters; `NUM_LOG_LEVELS` is no level.
pub mod LogLine
pub mod Wording
pub mod Macros
use transfer_server.Prelude.{
  ℕ, ◌+◌, ◌-◌, ◌*◌, ◌/◌, ◌%◌, Bool, true, false, List, [], ◌∷◌, ◌++◌, Option, none, some, Checked,
  ok, assert, ◌>>=◌, ◌>>◌, if◌then◌else◌, leb, ◌==◌, length, take, replicate, or_else,
}
use transfer_server.Prelude.Int.{pos}
use transfer_server.LogStream.{
  FixedBuffer, small_buffer, create, convert, Item, integer, character, text, put_all,
}

pub data LogLevel : Type 0 where
  trace debug info warn error fatal : LogLevel

-- `LogLevelName[level]`
abbrev pub level_name : LogLevel → List ℕ
level_name trace = b'T' ∷ b'R' ∷ b'A' ∷ b'C' ∷ b'E' ∷ []
level_name debug = b'D' ∷ b'E' ∷ b'B' ∷ b'U' ∷ b'G' ∷ []
level_name info = b'I' ∷ b'N' ∷ b'F' ∷ b'O' ∷ []
level_name warn = b'W' ∷ b'A' ∷ b'R' ∷ b'N' ∷ []
level_name error = b'E' ∷ b'R' ∷ b'R' ∷ b'O' ∷ b'R' ∷ []
level_name fatal = b'F' ∷ b'A' ∷ b'T' ∷ b'A' ∷ b'L' ∷ []

-- `initLogLevel`: which of the two variables of the environment are set.
pub init_log_level : Bool → Bool → LogLevel
init_log_level true set_debug = trace
init_log_level false true = debug
init_log_level false false = info

-- What stands behind the last '/', if there is one.
unfoldable pub after_slash : List ℕ → Option (List ℕ)
after_slash [] = none
after_slash (c ∷ cs) = elim (after_slash cs) [
  | some rest ↦ some rest
  | none ↦ if c == b'/' then some cs else none
]

-- `SourceFile(filename)`
unfoldable pub source_file : List ℕ → List ℕ
unfolding after_slash
source_file name = or_else (after_slash name) name

-- The variables of a thread.
pub record ThreadCache : Type 0 where
  pub cached_tid : ℕ
  pub tid_string : List ℕ
  pub last_second : ℕ
  pub time : List ℕ

abbrev pub new_thread : ThreadCache
new_thread = record { cached_tid = 0; tid_string = []; last_second = 0; time = replicate 32 0 }

-- `snprintf` with "%5d".
abbrev pub tid_text : ℕ → List ℕ
tid_text tid = let digits = convert (pos tid) in replicate (5 - length digits) b' ' ++ digits

-- `CurrentThread::tid()` and `cacheTid()`, where `gettid` answers `tid`.
unfoldable pub cache_tid : ℕ → ThreadCache → Checked ThreadCache
cache_tid tid t =
    if t.cached_tid == 0
    then assert (length (tid_text tid) == 5)
      >> ok (record t { cached_tid = tid; tid_string = tid_text tid })
    else ok t

-- `snprintf` with ".%06dZ ", for less than a million.
abbrev pub micros_text : ℕ → List ℕ
micros_text n =
    b'.'
    ∷ (b'0' + n / 100000 % 10)
    ∷ (b'0' + n / 10000 % 10)
    ∷ (b'0' + n / 1000 % 10)
    ∷ (b'0' + n / 100 % 10)
    ∷ (b'0' + n / 10 % 10)
    ∷ (b'0' + n % 10)
    ∷ b'Z'
    ∷ b' '
    ∷ []

-- The constructors of `Logger`; `errno` is what stands in errno.
pub data Start : Type 0 where
  plain : Start
  leveled : LogLevel → Start
  named : LogLevel → List ℕ → Start
  system : Bool → ℕ → Start

abbrev pub start_level : Start → LogLevel
start_level plain = info
start_level (leveled level) = level
start_level (named level func) = level
start_level (system to_abort errno) = if to_abort then fatal else error

abbrev pub start_errno : Start → ℕ
start_errno (system to_abort errno) = errno
start_errno _ = 0

-- What the constructor itself writes.
abbrev pub start_items : Start → List Item
start_items (named level func) = text func ∷ character b' ' ∷ []
start_items _ = []

-- `Impl::finish`
abbrev pub finish_items : List ℕ → ℕ → List Item
finish_items file line =
    text (b' ' ∷ b'-' ∷ b' ' ∷ [])
    ∷ text (source_file file)
    ∷ text (b':' ∷ [])
    ∷ integer (pos line)
    ∷ character b'\n'
    ∷ []

-- `g_output` and `g_flush`
pub data Output : Type 0 where
  output : List ℕ → Output
  flush : Output

-- `~Logger` flushes after a line of the level FATAL; the call of `abort` there is a comment.
abbrev pub flushes : LogLevel → List Output
flushes fatal = flush ∷ []
flushes _ = []

module _ (stamp : ℕ → List ℕ) (strerror : ℕ → List ℕ) where
  -- `Impl::formatTime`
  unfoldable pub format_time : ℕ → ThreadCache → FixedBuffer → Checked (ThreadCache × FixedBuffer)
  format_time micros t b = do
    let seconds = micros / 1000000
    let us = micros_text (micros % 1000000)
    let renewed =
        assert (length (stamp seconds) == 17)
        >> ok (record t { last_second = seconds; time = stamp seconds })
    t' ← if seconds == t.last_second then ok t else renewed
    assert (length us == 9)
    ok (t', put_all b (text (take 17 t'.time) ∷ text us ∷ []))

  abbrev pub errno_items : ℕ → List Item
  errno_items e =
      if e == 0
      then []
      else text (strerror e)
        ∷ text (b' ' ∷ b'(' ∷ b'e' ∷ b'r' ∷ b'r' ∷ b'n' ∷ b'o' ∷ b'=' ∷ [])
        ∷ integer (pos e)
        ∷ text (b')' ∷ b' ' ∷ [])
        ∷ []

  -- `Impl::Impl`, at `micros` microseconds after the epoch.
  unfoldable pub new_impl : ℕ → ℕ → LogLevel → ℕ → ThreadCache → Checked (ThreadCache × FixedBuffer)
  unfolding format_time cache_tid
  new_impl micros tid level saved_errno t =
      format_time micros t (create small_buffer) >>= λ (t₁, b). cache_tid tid t₁ >>= λ t₂.
      ok (t₂, put_all b (text t₂.tid_string ∷ text (level_name level) ∷ errno_items saved_errno))

  -- One statement of the log: the constructor, what is put into the stream, and the destructor.
  unfoldable pub log :
      ℕ → ℕ → Start → List ℕ → ℕ → List Item → ThreadCache → Checked (ThreadCache × List Output)
  unfolding new_impl
  log micros tid how file line items t =
      new_impl micros tid (start_level how) (start_errno how) t >>= λ (t', b).
      let b' = put_all (put_all (put_all b (start_items how)) items) (finish_items file line) in
      ok (t', output b'.text ∷ flushes (start_level how))
