-- ===== src/LogFile/Rolls.antt =====
-- The names of the files.
use transfer_server.Prelude.{
  ℕ, ◌<◌, ◌≤◌, ◌≡◌, ◌≢◌, refl, sym, ap, subst, ◌∙◌, List, [], ◌∷◌, ◌++◌, map, map-append, arith,
  length, take, drop, take-append_length, drop-append_length, All, All-imp, All-append, some, ok,
  true, find_byte,
}
use transfer_server.LogFile.{
  System, File, LogFile, flush_file, new_file, write_file, append, append_all, create, roll_file,
  retired, get_log_file_name, initial,
}
use transfer_server.LogFile.Branches.{opened, Closed, written, append-Ends}

-- No two of them are equal.
abbrev pub Apart : List (List ℕ) → Type 0
Apart [] = Unit {0}
Apart (n ∷ ns) = All (λ m. n ≢ m) ns × Apart ns

Apart-snoc :
    (ns : List (List ℕ)) (m : List ℕ) → Apart ns → All (λ n. n ≢ m) ns → Apart (ns ++ (m ∷ []))
Apart-snoc [] m h f = (tt, tt)
Apart-snoc (n ∷ ns) m h f =
    (All-append (λ k. n ≢ k) ns (m ∷ []) h.0 (f.0, tt), Apart-snoc ns m h.1 f.1)

-- The names of all files, the oldest first.
abbrev pub names : LogFile → List (List ℕ)
names s = map (λ f. f.name) (s.rolled ++ retired s.file)

names-of :
    (s : LogFile) (f : File)
    → s.file ≡ some f
    → names s ≡ map (λ g. g.name) s.rolled ++ (f.name ∷ [])
names-of s f e =
    ap (λ o. map (λ g. g.name) (s.rolled ++ retired o)) e
    ∙ map-append (λ g. g.name) s.rolled (f ∷ [])

-- `strftime` with ".%Y%m%d-%H%M%S" writes 16 characters, and different ones for different seconds.
pub record Stamps (sys : System) : Type 0 where
  pub stamp_length : (t : ℕ) → length (sys.stamp t) ≡ 16
  pub stamp_injective : (t u : ℕ) → sys.stamp t ≡ sys.stamp u → t ≡ u

module _ (sys : System) (laws : Stamps sys) (base : List ℕ) where
  get_log_file_name-injective :
      (t u : ℕ) → get_log_file_name sys base t ≡ get_log_file_name sys base u → t ≡ u
  unfolding get_log_file_name
  get_log_file_name-injective t u e =
      let tail = b'.' ∷ (sys.pid ++ (b'.' ∷ b'l' ∷ b'o' ∷ b'g' ∷ [])) in
      let stamped = λ (v : ℕ).
        ap (take 16) (drop-append_length base (sys.stamp v ++ tail) (length base) refl)
        ∙ take-append_length (sys.stamp v) tail 16 (sym (laws.stamp_length v)) in
      laws.stamp_injective t u
        (sym (stamped t) ∙ ap (λ n. take 16 (drop (length base) n)) e ∙ stamped u)

  -- The names were made at seconds up to `bound`.
  abbrev Dated : ℕ → List (List ℕ) → Type 0
  Dated bound ns = All (λ n. (t : ℕ) × (t ≤ bound) × (n ≡ get_log_file_name sys base t)) ns

  abbrev Named : LogFile → Type 0
  Named s =
      (s.basename ≡ base)
      × ((f : File) × (s.file ≡ some f))
      × Dated s.last_roll (names s)
      × Apart (names s)

  Named-opened : (s : LogFile) → s.last_roll < sys.time s.ticks → Named s → Named (opened sys s)
  Named-opened s lt (b, o, d, a) =
      let now = sys.time s.ticks in
      let n = get_log_file_name sys s.basename now in
      let is : n ≡ get_log_file_name sys base now = ap (λ x. get_log_file_name sys x now) b in
      let joined = map-append (λ g. g.name) (s.rolled ++ retired s.file) (new_file n ∷ []) in
      let fresh =
        All-imp (λ m. (t : ℕ) × (t ≤ s.last_roll) × (m ≡ get_log_file_name sys base t)) (λ m. m ≢ n)
          (names s)
          (λ m (t, le, e) q.
            let same = get_log_file_name-injective t now (sym e ∙ q ∙ is) in
            omega (arith, same, le, lt))
          d in
      let later =
        All-imp (λ m. (t : ℕ) × (t ≤ s.last_roll) × (m ≡ get_log_file_name sys base t))
          (λ m. (t : ℕ) × (t ≤ now) × (m ≡ get_log_file_name sys base t)) (names s)
          (λ m (t, le, e). (t, omega (arith, le, lt), e)) d in
      (
        b,
        (new_file n, refl),
        subst (λ ns. Dated now ns) (sym joined)
            (All-append (λ m. (t : ℕ) × (t ≤ now) × (m ≡ get_log_file_name sys base t)) (names s)
              (n ∷ []) later ((now, omega arith, is), tt)),
        subst Apart (sym joined) (Apart-snoc (names s) n a fresh),
      )

  Named-Closed : Closed sys Named
  Named-Closed = record {
    is_open = λ s h. h.1;
    by_open = Named-opened;
    by_tick = λ s h. h;
    by_count = λ s n h. h;
    by_flush = λ s f now e h.
        let same = map-append (λ g. g.name) s.rolled (flush_file f ∷ []) ∙ sym (names-of s f e) in
        (
          h.0,
          (flush_file f, refl),
          subst (λ ns. Dated s.last_roll ns) (sym same) h.2,
          subst Apart (sym same) h.3,
        );
  }

  module _ (opens : (name : List ℕ) → sys.opens name ≡ true) where
    append-Named :
        (s : LogFile) (line : List ℕ)
        → Named s
        → (s' : LogFile) × (append sys line s ≡ ok s') × Named s'
    unfolding write_file
    append-Named s line (b, (f, e), d, a) =
        let g = (write_file sys s.writes line f).0 in
        let same = names-of (written sys line f s) g refl ∙ sym (names-of s f e) in
        append-Ends sys Named Named-Closed opens s line f e
          (b, (g, refl), subst (λ ns. Dated s.last_roll ns) (sym same) d, subst Apart (sym same) a)

    append_all-Named :
        (lines : List (List ℕ)) (s : LogFile)
        → Named s
        → (s' : LogFile) × (append_all sys lines s ≡ ok s') × Named s'
    unfolding append_all
    append_all-Named [] s h = (s, refl, h)
    append_all-Named (line ∷ lines) s h =
        let (s₁, e, h₁) = append-Named s line h in
        let (s', e', h') = append_all-Named lines s₁ h₁ in (s', rw e e', h')

    -- A log with a name without slash, whose clock is past 0, while files can be opened, and where the
    -- stamps of different seconds differ: every append goes through, and no two of the files that the
    -- log ever made have the same name, even where the clock is set back.
    pub append_all-Apart :
        (roll_size flush_interval : ℕ) (lines : List (List ℕ))
        → find_byte b'/' base ≡ length base
        → 0 < sys.time 0
        → (s s' : LogFile) × (create sys base roll_size flush_interval ≡ ok s)
          × (append_all sys lines s ≡ ok s')
          × Apart (names s')
    unfolding create roll_file
    append_all-Apart roll_size flush_interval lines b t =
        let now = sys.time 0 in
        let name = get_log_file_name sys base now in
        let s = opened sys (initial base roll_size flush_interval) in
        let h : Named s = (refl, (new_file name, refl), ((now, omega arith, refl), tt), (tt, tt)) in
        let (s', e, h') = append_all-Named lines s h in
        (s, s', ground (arith, b, t, opens name), e, h'.3)
