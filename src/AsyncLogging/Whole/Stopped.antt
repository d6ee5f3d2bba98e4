-- ===== src/AsyncLogging/Whole/Stopped.antt =====
-- What `stop()` leaves unwritten.
use transfer_server.Prelude.{
  ℕ, ◌<◌, ◌≡◌, refl, sym, ap, subst, ◌∙◌, true, false, not, List, [], ◌∷◌, ◌++◌, length, replicate,
  arith, ok, ◌>>=◌, inl, inr,
}
use transfer_server.LogFile.{System, LogFile}
use transfer_server.LogFile.Keep.{all_text, Flushed}
use transfer_server.AsyncLogging.{Log, back, Phase, waiting, writing, recycling}
use transfer_server.AsyncLogging.Lines.{pending}
use transfer_server.AsyncLogging.Interleave.{
  Complete, waiting-Complete, writing-Complete, recycling-Complete, Phase-cases,
}
use transfer_server.AsyncLogging.Whole.{Whole, Event, happens, stops, part, whole_step, whole_run}
use transfer_server.AsyncLogging.Whole.Held.{Written, part-Written}

-- How many parts of its round the thread has left after `stop()`, and how many of `n` bytes in the current
-- buffer it does not write any more.
abbrev pub parts_to_end : Phase → ℕ
parts_to_end waiting = 3
parts_to_end writing = 2
parts_to_end recycling = 1

abbrev pub unwritten : Phase → ℕ → ℕ
unwritten waiting n = 0
unwritten writing n = n
unwritten recycling n = n

-- At the end of a round the output and the current buffer are all.
output_and_rest :
    (l : Log) (all : List ℕ) (n : ℕ)
    → Complete l all n
    → l.phase ≡ waiting
    → (rest : List ℕ) × (l.output ++ rest ≡ all) × (length rest ≡ n)
output_and_rest l all n c ph =
    (c.cb.text, ap (λ q. l.output ++ pending q c.cb c.ob) (sym ph) ∙ c.all_there, c.filled)

-- All but the last `n` bytes were given to the streams of the files.
abbrev pub AllBut : ℕ → List ℕ → LogFile → Type 0
AllBut n all s = (rest : List ℕ) × (all_text s ++ rest ≡ all) × (length rest ≡ n)

module _ (sys : System) (opens : (name : List ℕ) → sys.opens name ≡ true)
    (takes : (i n : ℕ) → 0 < n → 0 < sys.fwrite i n) where
  goes : (w : Whole) → w.finished ≡ false → whole_step sys (happens back) w ≡ part sys w
  unfolding whole_step
  goes w n = ground (arith, n)

  -- From the phase, the end.
  abbrev Ended : Whole → List ℕ → ℕ → List Event → Type 0
  Ended w all n es =
      (w' : Whole) × (whole_run sys es w ≡ ok w')
      × (w'.finished ≡ true)
      × AllBut n all w'.file
      × Flushed w'.file

  ends_recycling :
      (w : Whole) (all : List ℕ) (n : ℕ)
      → Written w
      → w.running ≡ false
      → w.finished ≡ false
      → Complete w.log all n
      → w.log.phase ≡ recycling
      → Ended w all n (happens back ∷ [])
  unfolding whole_run
  ends_recycling w all n h r on c ph =
      let (l, e, c₁, ph₁) = recycling-Complete w.log all n c ph in
      let (w₁, e₁, h₁, at, _, ended, _, flushed) = part-Written sys opens takes w l h e in
      let (rest, whole, size) = output_and_rest l all n c₁ ph₁ in
      (
        w₁,
        ap (λ m. m >>= whole_run sys []) (goes w on ∙ e₁),
        ended ph ∙ ap not r,
        (rest, ap (λ xs. xs ++ rest) (h₁.2 ∙ ap (λ (m : Log). m.output) at) ∙ whole, size),
        (flushed ph).1,
      )

  ends_writing :
      (w : Whole) (all : List ℕ) (n : ℕ)
      → Written w
      → w.running ≡ false
      → w.finished ≡ false
      → Complete w.log all n
      → w.log.phase ≡ writing
      → Ended w all n (happens back ∷ happens back ∷ [])
  unfolding whole_run
  ends_writing w all n h r on c ph =
      let (l, e, c₁, ph₁) = writing-Complete w.log all n c ph in
      let (w₁, e₁, h₁, at, r₁, _, others, _) = part-Written sys opens takes w l h e in
      let (w', e', ended, size, flushed) =
        ends_recycling w₁ all n h₁ (r₁ ∙ r) (others (λ q. cc (ph, q)) ∙ on)
          (subst (λ m. Complete m all n) (sym at) c₁) (ap (λ (m : Log). m.phase) at ∙ ph₁) in
      (
        w',
        ap (λ m. m >>= whole_run sys (happens back ∷ [])) (goes w on ∙ e₁) ∙ e',
        ended,
        size,
        flushed,
      )

  ends_waiting :
      (w : Whole) (all : List ℕ) (n : ℕ)
      → Written w
      → w.running ≡ false
      → w.finished ≡ false
      → Complete w.log all n
      → w.log.phase ≡ waiting
      → Ended w all 0 (happens back ∷ happens back ∷ happens back ∷ [])
  unfolding whole_run
  ends_waiting w all n h r on c ph =
      let (l, e, c₁, ph₁) = waiting-Complete w.log all n c ph in
      let (w₁, e₁, h₁, at, r₁, _, others, _) = part-Written sys opens takes w l h e in
      let (w', e', ended, size, flushed) =
        ends_writing w₁ all 0 h₁ (r₁ ∙ r) (others (λ q. cc (ph, q)) ∙ on)
          (subst (λ m. Complete m all 0) (sym at) c₁) (ap (λ (m : Log). m.phase) at ∙ ph₁) in
      (
        w',
        ap (λ m. m >>= whole_run sys (happens back ∷ happens back ∷ [])) (goes w on ∙ e₁) ∙ e',
        ended,
        size,
        flushed,
      )

  -- The log runs, the streams of its files were given what was written before, and no buffer is full; `n`
  -- bytes are in the current buffer. After `stop()` the thread ends, within three parts of its round, and all
  -- of the file in use is flushed. If it was in its wait, the streams of the files were then given all bytes
  -- that were handed over, in order; if it was writing or had just written, they were given all but the last
  -- `n` bytes, which are never written. All files can be opened, and every `fwrite` takes something.
  pub stop-unwritten :
      (w : Whole) (all : List ℕ) (n : ℕ)
      → Written w
      → w.finished ≡ false
      → Complete w.log all n
      → (w' : Whole) × (whole_run sys
            (stops ∷ replicate (parts_to_end w.log.phase) (happens back))
            w
          ≡ ok w')
        × (w'.finished ≡ true)
        × AllBut (unwritten w.log.phase n) all w'.file
        × Flushed w'.file
  unfolding whole_run whole_step
  stop-unwritten w all n h on c =
      let stopped = record w { running = false } in
      elim (Phase-cases w.log.phase) [
        | inl ph ↦
            let (w', e, ended, size, flushed) = ends_waiting stopped all n h refl on c ph in
            (
              w',
              ap (λ q. whole_run sys (replicate (parts_to_end q) (happens back)) stopped) ph ∙ e,
              ended,
              subst (λ q. AllBut (unwritten q n) all w'.file) (sym ph) size,
              flushed,
            )
        | inr (inl ph) ↦
            let (w', e, ended, size, flushed) = ends_writing stopped all n h refl on c ph in
            (
              w',
              ap (λ q. whole_run sys (replicate (parts_to_end q) (happens back)) stopped) ph ∙ e,
              ended,
              subst (λ q. AllBut (unwritten q n) all w'.file) (sym ph) size,
              flushed,
            )
        | inr (inr ph) ↦
            let (w', e, ended, size, flushed) = ends_recycling stopped all n h refl on c ph in
            (
              w',
              ap (λ q. whole_run sys (replicate (parts_to_end q) (happens back)) stopped) ph ∙ e,
              ended,
              subst (λ q. AllBut (unwritten q n) all w'.file) (sym ph) size,
              flushed,
            )
      ]
