-- ===== src/LogFile/Branches.antt =====
-- What an append does after the writing, in all branches: a predicate that the single changes keep is
-- kept.
use transfer_server.Prelude.{
  ℕ, ◌+◌, ◌<◌, ◌≡◌, List, ◌++◌, arith, some, Checked, ok, Bool-cases, ltb, ◌==◌, inl, inr, true,
}
use transfer_server.LogFile.{
  System, File, LogFile, new_file, flush_file, write_file, roll_file, check_time, append, flush,
  retired, get_log_file_name, period, check_time_roll,
}

module _ (sys : System) where
  -- The clock was read.
  abbrev pub ticked : LogFile → LogFile
  ticked s = record s { ticks = s.ticks + 1 }

  -- A new file was opened.
  abbrev pub opened : LogFile → LogFile
  opened s = record s {
    ticks = s.ticks + 1;
    last_roll = sys.time s.ticks;
    last_flush = sys.time s.ticks;
    start_of_period = period (sys.time s.ticks);
    file = some (new_file (get_log_file_name sys s.basename (sys.time s.ticks)));
    rolled = s.rolled ++ retired s.file;
  }

  -- A line was written.
  abbrev pub written : List ℕ → File → LogFile → LogFile
  written line f s =
      let (f', next) = write_file sys s.writes line f in record s { file = some f'; writes = next }

  -- A predicate that says that a file is open, and that opening another, reading the clock, counting
  -- and flushing keep.
  pub record Closed {ℓ} (P : LogFile → Type ℓ) : Type ℓ where
    pub is_open : (s : LogFile) → P s → (f : File) × (s.file ≡ some f)
    pub by_open : (s : LogFile) → s.last_roll < sys.time s.ticks → P s → P (opened s)
    pub by_tick : (s : LogFile) → P s → P (ticked s)
    pub by_count : (s : LogFile) (n : ℕ) → P s → P (record s { count = n })
    pub by_flush :
        (s : LogFile) (f : File) (now : ℕ)
        → s.file ≡ some f
        → P s
        → P (record s { file = some (flush_file f); last_flush = now })

  module _ {ℓ} (P : LogFile → Type ℓ) (closed : Closed P)
      (opens : (name : List ℕ) → sys.opens name ≡ true) where
    abbrev Ends : Checked LogFile → Type ℓ
    Ends r = (s' : LogFile) × (r ≡ ok s') × P s'

    roll_file-Ends : (s : LogFile) → P s → Ends (roll_file sys s)
    unfolding roll_file
    roll_file-Ends s h =
        let now = sys.time s.ticks in
        let name = get_log_file_name sys s.basename now in
        elim (Bool-cases (ltb s.last_roll now)) [
          | inl b ↦
              (opened s, ground (arith, b, opens name), closed.by_open s (ground (arith, b)) h)
          | inr b ↦ (ticked s, ground (arith, b), closed.by_tick s h)
        ]

    check_time-Ends : (s : LogFile) → P s → Ends (check_time sys s)
    unfolding check_time flush
    check_time-Ends s h =
        let now = sys.time s.ticks in
        let s₁ = record s { count = 0; ticks = s.ticks + 1 } in
        let h₁ = closed.by_tick (record s { count = 0 }) (closed.by_count s 0 h) in
        let (f, at) = closed.is_open s h in
        elim (Bool-cases (period now == s.start_of_period)) [
          | inl b ↦ elim (Bool-cases (ltb (s.last_flush + s.flush_interval) now)) [
            | inl c ↦ (
              record s₁ { file = some (flush_file f); last_flush = now },
              ground (arith, b, c, at),
              closed.by_flush s₁ f now at h₁,
            )
            | inr c ↦ (s₁, ground (arith, b, c), h₁)
          ]
          | inr b ↦ let (s', e, p) = roll_file-Ends s₁ h₁ in (s', ground (arith, b, e), p)
        ]

    -- If the predicate holds once the line is written, the append goes through, and it holds then.
    pub append-Ends :
        (s : LogFile) (line : List ℕ) (f : File)
        → s.file ≡ some f
        → P (written line f s)
        → Ends (append sys line s)
    unfolding append
    append-Ends s line f at h =
        let s₁ = written line f s in
        let f' = (write_file sys s.writes line f).0 in
        elim (Bool-cases (ltb s.roll_size f'.written_bytes)) [
          | inl b ↦ let (s', e, p) = roll_file-Ends s₁ h in (s', ground (arith, b, e, at), p)
          | inr b ↦ elim (Bool-cases (ltb check_time_roll s.count)) [
            | inl c ↦ let (s', e, p) = check_time-Ends s₁ h in (s', ground (arith, b, c, e, at), p)
            | inr c ↦ (
              record s₁ { count = s.count + 1 },
              ground (arith, b, c, at),
              closed.by_count s₁ (s.count + 1) h,
            )
          ]
        ]
