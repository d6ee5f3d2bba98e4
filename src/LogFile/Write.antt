-- ===== src/LogFile/Write.antt =====
-- What `File::append` gives to the stream.
use transfer_server.Prelude.{
  take_add, ℕ, zero, suc, ◌+◌, ◌<◌, ◌≤◌, ◌≡◌, refl, ap, ◌∙◌, List, [], ◌∷◌, ◌++◌, arith, length,
  take, drop, take-append-drop, length-drop, ◌⊎◌, inl, inr, Bool-cases, ==_iff, ◌==◌, add_size,
}
use transfer_server.LogFile.{System, File, write_rest, write_file}

module _ (sys : System) where
  -- Some `fwrite` that had bytes to write took none.
  abbrev pub Refused : Type 0
  Refused = (call : ℕ) × (n : ℕ) × (0 < n) × (sys.fwrite call n ≡ 0)

  -- All the bytes are taken, or a first part of them because some call refused.
  abbrev pub Taken : List ℕ → List ℕ → Type 0
  Taken out line = (out ≡ line) ⊎ ((k : ℕ) × (k < length line) × (out ≡ take k line) × Refused)

  Taken-append :
      (m : ℕ) (out line : List ℕ) → Taken out (drop m line) → Taken (take m line ++ out) line
  Taken-append m out line (inl e) = inl (ap (λ ys. take m line ++ ys) e ∙ take-append-drop m line)
  Taken-append m out line (inr (k, lt, e, r)) = inr (
    m + k,
    omega (arith, lt, length-drop m line),
    ap (λ ys. take m line ++ ys) e ∙ take_add m k line,
    r,
  )

  write_rest-Taken :
      (fuel call : ℕ) (rest : List ℕ)
      → length rest ≤ fuel
      → Taken (write_rest sys fuel call rest).0 rest
  unfolding write_rest
  write_rest-Taken zero call [] h = inl refl
  write_rest-Taken zero call (c ∷ rest) h = ground (arith, h)
  write_rest-Taken (suc fuel) call [] h = inl refl
  write_rest-Taken (suc fuel) call (c ∷ rest) h =
      let x = sys.fwrite call (length (c ∷ rest)) in
      elim (Bool-cases (x == 0)) [
        | inl z ↦ rw z (
            inr
              (0, omega (arith), refl, (call, length (c ∷ rest), omega (arith), (==_iff x 0).0 z)))
        | inr z ↦ rw z (
            Taken-append x (write_rest sys fuel (suc call) (drop x (c ∷ rest))).0 (c ∷ rest) (
              write_rest-Taken fuel (suc call) (drop x (c ∷ rest))
                (grind (arith, length-drop x (c ∷ rest), h, z))))
      ]

  -- `File::append` hands over the line, or, only where an `fwrite` took nothing, a first part of it; it
  -- counts the whole line as written in both cases.
  pub write_file-Taken :
      (call : ℕ) (line : List ℕ) (f : File)
      → (out : List ℕ) × Taken out line
        × ((write_file sys call line f).0 ≡ record f {
          text = f.text ++ out;
          written_bytes = add_size f.written_bytes (length line);
        })
  unfolding write_file
  write_file-Taken call line f =
      let n = sys.fwrite call (length line) in
      (
        take n line ++ (write_rest sys (length line) (suc call) (drop n line)).0,
        Taken-append n (write_rest sys (length line) (suc call) (drop n line)).0 line (
            write_rest-Taken (length line) (suc call) (drop n line)
              (omega (arith, length-drop n line))),
        refl,
      )

  -- While every `fwrite` takes something, that is the whole line.
  pub write_file-all :
      (call : ℕ) (line : List ℕ) (f : File)
      → ((i n : ℕ) → 0 < n → 0 < sys.fwrite i n)
      → (write_file sys call line f).0
        ≡ record f { text = f.text ++ line; written_bytes = add_size f.written_bytes (length line) }
  write_file-all call line f takes =
      let (out, t, e) = write_file-Taken call line f in
      e ∙ (elim t [
        | inl q ↦
            ap
              (λ ys. record f {
                text = f.text ++ ys;
                written_bytes = add_size f.written_bytes (length line);
              })
              q
        | inr (k, lt, q, (i, n, p, z)) ↦ ground (arith, takes i n p, z)
      ])
