-- ===== src/LogFile/Keep.antt =====
-- No line is lost, over all files.
use transfer_server.Prelude.{
  ℕ, ◌<◌, ◌≡◌, refl, sym, ap, ◌∙◌, List, [], ◌∷◌, ◌++◌, arith, length, append_assoc, append-nil,
  some, ok, true, find_byte,
}
use transfer_server.LogFile.{
  initial, System, File, LogFile, new_file, flush_file, flush, write_file, append, append_all,
  create, roll_file, retired, get_log_file_name,
}
use transfer_server.LogFile.Write.{write_file-all}
use transfer_server.LogFile.Branches.{opened, Closed, written, append-Ends}

-- What the streams of these files were given, and of all files of the log.
abbrev pub texts : List File → List ℕ
texts [] = []
texts (f ∷ fs) = f.text ++ texts fs

abbrev pub all_text : LogFile → List ℕ
all_text s = texts (s.rolled ++ retired s.file)

abbrev pub joined : List (List ℕ) → List ℕ
joined [] = []
joined (xs ∷ lines) = xs ++ joined lines

texts-append : (fs gs : List File) → texts (fs ++ gs) ≡ texts fs ++ texts gs
texts-append [] gs = refl
texts-append (f ∷ fs) gs =
    ap (λ ys. f.text ++ ys) (texts-append fs gs) ∙ sym (append_assoc f.text (texts fs) (texts gs))

-- The text of the file in use stands last.
all_text-last : (s : LogFile) (f : File) → s.file ≡ some f → all_text s ≡ texts s.rolled ++ f.text
all_text-last s f e =
    ap (λ o. texts (s.rolled ++ retired o)) e
    ∙ texts-append s.rolled (f ∷ [])
    ∙ ap (λ ys. texts s.rolled ++ ys) (append-nil f.text)

-- A file is open, and all files together hold `all`.
abbrev pub Holds : List ℕ → LogFile → Type 0
Holds all s = (f : File) × (s.file ≡ some f) × (all_text s ≡ all)

Holds-Closed : (sys : System) (all : List ℕ) → Closed sys (Holds all)
Holds-Closed sys all = record {
  is_open = λ s h. (h.0, h.1);
  by_open = λ s lt h. (
    new_file (get_log_file_name sys s.basename (sys.time s.ticks)),
    refl,
    texts-append (s.rolled ++ retired s.file)
          (new_file (get_log_file_name sys s.basename (sys.time s.ticks)) ∷ [])
        ∙ append-nil (all_text s)
        ∙ h.2,
  );
  by_tick = λ s h. h;
  by_count = λ s n h. h;
  by_flush = λ s f now e h. (
    flush_file f,
    refl,
    texts-append s.rolled (flush_file f ∷ [])
        ∙ ap (λ ys. texts s.rolled ++ ys) (append-nil f.text)
        ∙ sym (all_text-last s f e)
        ∙ h.2,
  );
}

-- The stream of the file in use has been flushed, with all that it was given.
abbrev pub Flushed : LogFile → Type 0
Flushed s = (f : File) × (s.file ≡ some f) × (f.flushed ≡ length f.text)

pub flush-Holds :
    (s : LogFile) (all : List ℕ)
    → Holds all s
    → (s' : LogFile) × (flush s ≡ ok s') × Holds all s' × Flushed s'
unfolding flush
flush-Holds s all (f, e, t) = (
  record s { file = some (flush_file f) },
  rw e refl,
  (
    flush_file f,
    refl,
    texts-append s.rolled (flush_file f ∷ [])
        ∙ ap (λ ys. texts s.rolled ++ ys) (append-nil f.text)
        ∙ sym (all_text-last s f e)
        ∙ t,
  ),
  (flush_file f, refl, refl),
)

module _ (sys : System) (opens : (name : List ℕ) → sys.opens name ≡ true)
    (takes : (i n : ℕ) → 0 < n → 0 < sys.fwrite i n) where
  append-Holds :
      (s : LogFile) (all line : List ℕ)
      → Holds all s
      → (s' : LogFile) × (append sys line s ≡ ok s') × Holds (all ++ line) s'
  append-Holds s all line (f, e, t) =
      append-Ends sys (Holds (all ++ line)) (Holds-Closed sys (all ++ line)) opens s line f e (
        (write_file sys s.writes line f).0,
        refl,
        all_text-last (written sys line f s) (write_file sys s.writes line f).0 refl
            ∙ ap (λ g. texts s.rolled ++ g.text) (write_file-all sys s.writes line f takes)
            ∙ sym (append_assoc (texts s.rolled) f.text line)
            ∙ ap (λ ys. ys ++ line) (sym (all_text-last s f e) ∙ t),
      )

  pub append_all-Holds :
      (lines : List (List ℕ)) (s : LogFile) (all : List ℕ)
      → Holds all s
      → (s' : LogFile) × (append_all sys lines s ≡ ok s') × Holds (all ++ joined lines) s'
  unfolding append_all
  append_all-Holds [] s all h = (s, refl, (h.0, h.1, h.2 ∙ sym (append-nil all)))
  append_all-Holds (line ∷ lines) s all h =
      let (s₁, e, h₁) = append-Holds s all line h in
      let (s', e', h') = append_all-Holds lines s₁ (all ++ line) h₁ in
      (s', rw e e', (h'.0, h'.1, h'.2 ∙ append_assoc all line (joined lines)))

  pub create-Holds :
      (basename : List ℕ) (roll_size flush_interval : ℕ)
      → find_byte b'/' basename ≡ length basename
      → 0 < sys.time 0
      → (s : LogFile) × (create sys basename roll_size flush_interval ≡ ok s) × Holds [] s
  unfolding create roll_file
  create-Holds basename roll_size flush_interval b t =
      let s = initial basename roll_size flush_interval in
      let name = get_log_file_name sys basename (sys.time 0) in
      (opened sys s, ground (arith, b, t, opens name), (new_file name, refl, refl))

  -- A log with a name without slash, whose clock is past 0, while files can be opened and every
  -- `fwrite` takes something: the log opens its first file, every append goes through, and however often
  -- the log rolls, the streams of all its files together, from the oldest on, have been given all lines, in
  -- order. A `flush` behind that goes through, changes nothing of it, and flushes all of the file in use;
  -- what the streams of the earlier files still hold back stays there.
  pub log_keeps_lines :
      (basename : List ℕ) (roll_size flush_interval : ℕ) (lines : List (List ℕ))
      → find_byte b'/' basename ≡ length basename
      → 0 < sys.time 0
      → (s s' s'' : LogFile) × (create sys basename roll_size flush_interval ≡ ok s)
        × (append_all sys lines s ≡ ok s')
        × (all_text s' ≡ joined lines)
        × (flush s' ≡ ok s'')
        × (all_text s'' ≡ joined lines)
        × Flushed s''
  log_keeps_lines basename roll_size flush_interval lines b t =
      let (s, e, h) = create-Holds basename roll_size flush_interval b t in
      let (s', e', h') = append_all-Holds lines s [] h in
      let (s'', e'', h'', flushed) = flush-Holds s' (joined lines) h' in
      (s, s', s'', e, e', h'.2, e'', h''.2, flushed)
