-- ===== src/AsyncLogging/Interleave.antt =====
-- Every line handed over reaches the output, in order, in every interleaving in which the thread takes
-- each buffer before it is full.
use transfer_server.Prelude.{
  ℕ, ◌+◌, ◌<◌, ◌≡◌, ◌⊎◌, inl, inr, refl, sym, ap, subst, ◌∙◌, List, [], ◌∷◌, ◌++◌, append_assoc,
  append-nil, arith, length, length-append, ok,
}
use transfer_server.LogStream.{FixedBuffer, large_buffer}
use transfer_server.AsyncLogging.{
  Log, Phase, waiting, writing, recycling, Op, line, back, step, run,
}
use transfer_server.AsyncLogging.Lines.{
  Good, pending, lined, line-ok, line-Good, taken, back-waiting, written, back-writing, recycled,
  back-recycling,
}

-- `Good`, with all bytes handed over so far: those that are written and those that are not.
pub record Complete (l : Log) (all : List ℕ) (n : ℕ) : Type 0 where
  pub other : ℕ
  pub spare : ℕ
  pub cb : FixedBuffer
  pub ob : FixedBuffer
  pub sb : FixedBuffer
  pub good : Good l other spare cb ob sb
  pub all_there : l.output ++ pending l.phase cb ob ≡ all
  pub filled : length cb.text ≡ n

abbrev pub lines : List Op → List ℕ
lines [] = []
lines (line xs ∷ ops) = xs ++ lines ops
lines (back ∷ ops) = lines ops

-- With `n` bytes in the current buffer, the lines fit into the buffers in turn: the thread takes each
-- before it is full.
abbrev pub Fits : Phase → ℕ → List Op → Type 0
Fits ph n [] = Unit {0}
Fits ph n (line xs ∷ ops) = (n + length xs < large_buffer) × Fits ph (n + length xs) ops
Fits waiting n (back ∷ ops) = Fits writing 0 ops
Fits writing n (back ∷ ops) = Fits recycling n ops
Fits recycling n (back ∷ ops) = Fits waiting n ops

-- A line that is pending stands behind all others.
pending-append :
    (ph : Phase) (cb ob : FixedBuffer) (xs : List ℕ)
    → pending ph (record cb { text = cb.text ++ xs }) ob ≡ pending ph cb ob ++ xs
pending-append waiting cb ob xs = refl
pending-append writing cb ob xs = sym (append_assoc ob.text cb.text xs)
pending-append recycling cb ob xs = refl

line-Complete :
    (l : Log) (all xs : List ℕ) (n : ℕ)
    → Complete l all n
    → n + length xs < large_buffer
    → (l' : Log) × (step (line xs) l ≡ ok l')
      × Complete l' (all ++ xs) (n + length xs)
      × (l'.phase ≡ l.phase)
line-Complete l all xs n c h =
    let fits : length c.cb.text + length xs < large_buffer = omega (arith, c.filled) in
    (
      lined l c.other c.spare c.cb c.ob c.sb c.good xs,
      line-ok l c.other c.spare c.cb c.ob c.sb c.good xs fits,
      record {
        other = c.other;
        spare = c.spare;
        cb = record c.cb { text = c.cb.text ++ xs };
        ob = c.ob;
        sb = c.sb;
        good = line-Good l c.other c.spare c.cb c.ob c.sb c.good xs fits;
        all_there =
            ap (λ ys. l.output ++ ys) (pending-append l.phase c.cb c.ob xs)
            ∙ sym (append_assoc l.output (pending l.phase c.cb c.ob) xs)
            ∙ ap (λ ys. ys ++ xs) c.all_there;
        filled = omega (arith, length-append c.cb.text xs, c.filled);
      },
      refl,
    )

pub waiting-Complete :
    (l : Log) (all : List ℕ) (n : ℕ)
    → Complete l all n
    → l.phase ≡ waiting
    → (l' : Log) × (step back l ≡ ok l') × Complete l' all 0 × (l'.phase ≡ writing)
waiting-Complete l all n c e =
    let (q, g, empty) = back-waiting l c.other c.spare c.cb c.ob c.sb c.good e in
    (
      taken l c.other c.spare c.cb c.ob c.sb c.good,
      q,
      record {
        other = l.shared.current;
        spare = c.spare;
        cb = c.ob;
        ob = c.cb;
        sb = c.sb;
        good = g;
        all_there =
            ap (λ ys. l.output ++ (c.cb.text ++ ys)) empty
            ∙ ap (λ ys. l.output ++ ys) (append-nil c.cb.text)
            ∙ ap (λ ph. l.output ++ pending ph c.cb c.ob) (sym e)
            ∙ c.all_there;
        filled = ap length empty;
      },
      refl,
    )

pub writing-Complete :
    (l : Log) (all : List ℕ) (n : ℕ)
    → Complete l all n
    → l.phase ≡ writing
    → (l' : Log) × (step back l ≡ ok l') × Complete l' all n × (l'.phase ≡ recycling)
writing-Complete l all n c e =
    let (q, g) = back-writing l c.other c.spare c.cb c.ob c.sb c.good e in
    (
      written l c.other c.spare c.cb c.ob c.sb c.good,
      q,
      record {
        other = c.other;
        spare = c.spare;
        cb = c.cb;
        ob = c.ob;
        sb = c.sb;
        good = g;
        all_there =
            ap (λ ys. (l.output ++ ys) ++ c.cb.text) (append-nil c.ob.text)
            ∙ append_assoc l.output c.ob.text c.cb.text
            ∙ ap (λ ph. l.output ++ pending ph c.cb c.ob) (sym e)
            ∙ c.all_there;
        filled = c.filled;
      },
      refl,
    )

pub recycling-Complete :
    (l : Log) (all : List ℕ) (n : ℕ)
    → Complete l all n
    → l.phase ≡ recycling
    → (l' : Log) × (step back l ≡ ok l') × Complete l' all n × (l'.phase ≡ waiting)
recycling-Complete l all n c e =
    let (q, g) = back-recycling l c.other c.spare c.cb c.ob c.sb c.good e in
    (
      recycled l c.other c.spare c.cb c.ob c.sb c.good,
      q,
      record {
        other = c.other;
        spare = c.spare;
        cb = c.cb;
        ob = record c.ob { text = [] };
        sb = c.sb;
        good = g;
        all_there = ap (λ ph. l.output ++ pending ph c.cb c.ob) (sym e) ∙ c.all_there;
        filled = c.filled;
      },
      refl,
    )

pub Phase-cases : (ph : Phase) → (ph ≡ waiting) ⊎ ((ph ≡ writing) ⊎ (ph ≡ recycling))
Phase-cases waiting = inl refl
Phase-cases writing = inr (inl refl)
Phase-cases recycling = inr (inr refl)

-- In every interleaving of lines with the parts of the thread's round in which the thread takes each
-- buffer before it is full, nothing aborts, and the bytes written with those still in the buffers are
-- the bytes of before and all lines, in order.
pub run-Complete :
    (ops : List Op) (l : Log) (all : List ℕ) (n : ℕ)
    → Complete l all n
    → Fits l.phase n ops
    → (l' : Log) × (m : ℕ) × (run ops l ≡ ok l') × Complete l' (all ++ lines ops) m
unfolding run
run-Complete [] l all n c f = (l, n, refl, subst (λ a. Complete l a n) (sym (append-nil all)) c)
run-Complete (line xs ∷ ops) l all n c f =
    let (l₁, e, c₁, p) = line-Complete l all xs n c f.0 in
    let (l', m, e', c') =
      run-Complete ops l₁ (all ++ xs) (n + length xs) c₁
        (subst (λ ph. Fits ph (n + length xs) ops) (sym p) f.1) in
    (l', m, rw e e', subst (λ a. Complete l' a m) (append_assoc all xs (lines ops)) c')
run-Complete (back ∷ ops) l all n c f = elim (Phase-cases l.phase) [
  | inl w ↦
      let (l₁, e, c₁, p) = waiting-Complete l all n c w in
      let (l', m, e', c') =
        run-Complete ops l₁ all 0 c₁
          (subst (λ ph. Fits ph 0 ops) (sym p) (subst (λ ph. Fits ph n (back ∷ ops)) w f)) in
      (l', m, rw e e', c')
  | inr (inl w) ↦
      let (l₁, e, c₁, p) = writing-Complete l all n c w in
      let (l', m, e', c') =
        run-Complete ops l₁ all n c₁
          (subst (λ ph. Fits ph n ops) (sym p) (subst (λ ph. Fits ph n (back ∷ ops)) w f)) in
      (l', m, rw e e', c')
  | inr (inr w) ↦
      let (l₁, e, c₁, p) = recycling-Complete l all n c w in
      let (l', m, e', c') =
        run-Complete ops l₁ all n c₁
          (subst (λ ph. Fits ph n ops) (sym p) (subst (λ ph. Fits ph n (back ∷ ops)) w f)) in
      (l', m, rw e e', c')
]
