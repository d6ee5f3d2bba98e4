-- ===== src/LogFile.antt =====
-- include/LogFile.h and src/LogFile.cpp: the log's files, one after the other. Bytes are numbers. With
-- and without `mutex_` the operations do the same. `fwrite`, `fopen`, `time`, `strftime` and `getpid`
-- are the operating system's: a `System` says what their calls give.
pub mod Write
pub mod Branches
pub mod Rolls
pub mod Keep
use transfer_server.Prelude.{
  ℕ, zero, suc, ◌+◌, ◌*◌, ◌/◌, Bool, not, List, [], ◌∷◌, ◌++◌, Option, none, some, Checked, ok,
  assert, deref, ◌>>=◌, ◌>>◌, if◌then◌else◌, ltb, ◌==◌, length, take, drop, find_byte, add_size,
}

-- The n-th call of `fwrite`, with so many bytes, takes `fwrite n bytes` of them; the n-th call of `time`
-- gives `time n`; `opens` says which files can be opened; `stamp` is the text for a second, and `pid`
-- that for the process.
pub record System : Type 0 where
  pub fwrite : ℕ → ℕ → ℕ
  pub time : ℕ → ℕ
  pub opens : List ℕ → Bool
  pub stamp : ℕ → List ℕ
  pub pid : List ℕ

-- A file: what its stream was given, and how much of it at the last `fflush`.
pub record File : Type 0 where
  pub name : List ℕ
  pub text : List ℕ
  pub flushed : ℕ
  pub written_bytes : ℕ

-- `rolled` are the files that `file_` pointed to before; nothing closes them. `writes` and `ticks`
-- count the calls of `fwrite` and of `time`.
pub record LogFile : Type 0 where
  pub basename : List ℕ
  pub roll_size : ℕ
  pub flush_interval : ℕ
  pub count : ℕ
  pub start_of_period : ℕ
  pub last_roll : ℕ
  pub last_flush : ℕ
  pub file : Option File
  pub rolled : List File
  pub writes : ℕ
  pub ticks : ℕ

abbrev pub check_time_roll : ℕ
check_time_roll = 1024

abbrev pub roll_per_seconds : ℕ
roll_per_seconds = 60 * 60 * 24

-- `new File(filename)`
abbrev pub new_file : List ℕ → File
new_file name = record { name = name; text = []; flushed = 0; written_bytes = 0 }

abbrev pub period : ℕ → ℕ
period now = now / roll_per_seconds * roll_per_seconds

abbrev pub retired : Option File → List File
retired none = []
retired (some f) = f ∷ []

-- `file_->flush()`
abbrev pub flush_file : File → File
flush_file f = record f { flushed = length f.text }

-- `flush`
unfoldable pub flush : LogFile → Checked LogFile
flush s = deref s.file >>= λ f. ok (record s { file = some (flush_file f) })

-- The members as the constructor initialises them.
abbrev pub initial : List ℕ → ℕ → ℕ → LogFile
initial basename roll_size flush_interval = record {
  basename = basename;
  roll_size = roll_size;
  flush_interval = flush_interval;
  count = 0;
  start_of_period = 0;
  last_roll = 0;
  last_flush = 0;
  file = none;
  rolled = [];
  writes = 0;
  ticks = 0;
}

module _ (sys : System) where
  -- The loop of `File::append`: the bytes taken of what remains, and the next call. On fuel.
  unfoldable pub write_rest : ℕ → ℕ → List ℕ → List ℕ × ℕ
  write_rest zero call rest = ([], call)
  write_rest (suc fuel) call [] = ([], call)
  write_rest (suc fuel) call (c ∷ rest) =
      let x = sys.fwrite call (length (c ∷ rest)) in
      let (out, next) = write_rest fuel (suc call) (drop x (c ∷ rest)) in
      if x == 0 then ([], suc call) else (take x (c ∷ rest) ++ out, next)

  -- `File::append`
  unfoldable pub write_file : ℕ → List ℕ → File → File × ℕ
  unfolding write_rest
  write_file call line f =
      let n = sys.fwrite call (length line) in
      let (out, next) = write_rest (length line) (suc call) (drop n line) in
      (
        record f {
          text = f.text ++ (take n line ++ out);
          written_bytes = add_size f.written_bytes (length line);
        },
        next,
      )

  -- `getLogFileName`
  unfoldable pub get_log_file_name : List ℕ → ℕ → List ℕ
  get_log_file_name basename now =
      basename ++ (sys.stamp now ++ (b'.' ∷ (sys.pid ++ (b'.' ∷ b'l' ∷ b'o' ∷ b'g' ∷ []))))

  -- `rollFile`
  unfoldable pub roll_file : LogFile → Checked LogFile
  unfolding get_log_file_name
  roll_file s =
      let now = sys.time s.ticks in
      let name = get_log_file_name s.basename now in
      let ticked = record s { ticks = s.ticks + 1 } in
      if ltb s.last_roll now
      then (assert (sys.opens name)
          >> ok (record ticked {
            last_roll = now;
            last_flush = now;
            start_of_period = period now;
            file = some (new_file name);
            rolled = s.rolled ++ retired s.file;
          }))
      else ok ticked

  -- The part of `append_unlocked` that looks at the clock.
  unfoldable pub check_time : LogFile → Checked LogFile
  unfolding roll_file flush
  check_time s =
      let now = sys.time s.ticks in
      let ticked = record s { count = 0; ticks = s.ticks + 1 } in
      if not (period now == s.start_of_period)
      then roll_file ticked
      else (if ltb (s.last_flush + s.flush_interval) now
          then flush (record ticked { last_flush = now })
          else ok ticked)

  -- `append`, `append_unlocked`
  unfoldable pub append : List ℕ → LogFile → Checked LogFile
  unfolding write_file roll_file check_time
  append line s = deref s.file >>= λ f.
      let (f', next) = write_file s.writes line f in
      let s' = record s { file = some f'; writes = next } in
      if ltb s.roll_size f'.written_bytes
      then roll_file s'
      else (if ltb check_time_roll s.count
          then check_time s'
          else ok (record s' { count = s.count + 1 }))

  -- `LogFile(basename, rollSize, threadSafe, flushInterval)`
  unfoldable pub create : List ℕ → ℕ → ℕ → Checked LogFile
  unfolding roll_file
  create basename roll_size flush_interval =
      assert (find_byte b'/' basename == length basename)
      >> roll_file (initial basename roll_size flush_interval)

  pub append_all : List (List ℕ) → LogFile → Checked LogFile
  unfolding append
  append_all [] s = ok s
  append_all (line ∷ lines) s = append line s >>= λ s'. append_all lines s'
