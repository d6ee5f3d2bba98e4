-- ===== src/AsyncLogging/Drain.antt =====
-- Left alone, the thread writes out all lines that were handed over.
use transfer_server.Prelude.{
  ℕ, ◌≤◌, ◌≡◌, inl, inr, refl, sym, ap, ◌∙◌, List, [], ◌∷◌, ◌++◌, append-nil, arith, length, ok,
  ◌>>=◌, replicate, Checked-cases,
}
use transfer_server.AsyncLogging.{Log, Phase, waiting, writing, recycling, Op, back, step, run}
use transfer_server.AsyncLogging.Lines.{pending}
use transfer_server.AsyncLogging.Interleave.{
  Complete, Fits, lines, waiting-Complete, writing-Complete, recycling-Complete, Phase-cases,
  run-Complete,
}

-- How many parts of the thread's rounds it takes until all that was handed over is written.
abbrev pub parts_left : Phase → ℕ
parts_left waiting = 2
parts_left writing = 4
parts_left recycling = 3

parts_left_bound : (ph : Phase) → parts_left ph ≤ 4
parts_left_bound waiting = omega (arith)
parts_left_bound writing = omega (arith)
parts_left_bound recycling = omega (arith)

no_text : (xs : List ℕ) → length xs ≡ 0 → xs ≡ []
no_text [] e = refl
no_text (x ∷ xs) e = ground (arith, e)

-- After the writing, nothing is left but what the current buffer holds.
settled : (l : Log) (all : List ℕ) → Complete l all 0 → l.phase ≡ recycling → l.output ≡ all
settled l all c e =
    sym (append-nil l.output)
    ∙ ap (λ ys. l.output ++ ys) (sym (no_text c.cb.text c.filled))
    ∙ ap (λ ph. l.output ++ pending ph c.cb c.ob) (sym e)
    ∙ c.all_there

drain_waiting :
    (l : Log) (all : List ℕ) (n : ℕ)
    → Complete l all n
    → l.phase ≡ waiting
    → (l' : Log) × (run (back ∷ back ∷ []) l ≡ ok l')
      × (l'.output ≡ all)
      × (l'.phase ≡ recycling)
      × Complete l' all 0
unfolding run
drain_waiting l all n c e =
    let (l₁, e₁, c₁, p₁) = waiting-Complete l all n c e in
    let (l₂, e₂, c₂, p₂) = writing-Complete l₁ all 0 c₁ p₁ in
    (l₂, (rw e₁ (rw e₂ refl)), settled l₂ all c₂ p₂, p₂, c₂)

drain_recycling :
    (l : Log) (all : List ℕ) (n : ℕ)
    → Complete l all n
    → l.phase ≡ recycling
    → (l' : Log) × (run (back ∷ back ∷ back ∷ []) l ≡ ok l')
      × (l'.output ≡ all)
      × (l'.phase ≡ recycling)
      × Complete l' all 0
unfolding run
drain_recycling l all n c e =
    let (l₁, e₁, c₁, p₁) = recycling-Complete l all n c e in
    let (l', e', o, ph, done) = drain_waiting l₁ all n c₁ p₁ in (l', rw e₁ e', o, ph, done)

-- From a state in which no buffer is full, the thread alone writes out all bytes that were handed over:
-- so many parts of its round go through, and then the output is all of them, in order.
pub drain-Complete :
    (l : Log) (all : List ℕ) (n : ℕ)
    → Complete l all n
    → (l' : Log) × (run (replicate (parts_left l.phase) back) l ≡ ok l')
      × (l'.output ≡ all)
      × (l'.phase ≡ recycling)
      × Complete l' all 0
unfolding run
drain-Complete l all n c = elim (Phase-cases l.phase) [
  | inl w ↦
      let (l', e', o, ph, done) = drain_waiting l all n c w in
      (l', ap (λ ph. run (replicate (parts_left ph) back) l) w ∙ e', o, ph, done)
  | inr (inl w) ↦
      let (l₁, e₁, c₁, p₁) = writing-Complete l all n c w in
      let (l', e', o, ph, done) = drain_recycling l₁ all n c₁ p₁ in
      (l', ap (λ ph. run (replicate (parts_left ph) back) l) w ∙ rw e₁ e', o, ph, done)
  | inr (inr w) ↦
      let (l', e', o, ph, done) = drain_recycling l all n c w in
      (l', ap (λ ph. run (replicate (parts_left ph) back) l) w ∙ e', o, ph, done)
]

run-append :
    (ops ops' : List Op) (l : Log) → run (ops ++ ops') l ≡ (run ops l >>= λ l'. run ops' l')
unfolding run
run-append [] ops' l = refl
run-append (op ∷ ops) ops' l = elim (Checked-cases (step op l)) [
  | inl e ↦ rw e refl
  | inr (l₁, e) ↦ rw e (run-append ops ops' l₁)
]

-- Whatever lines were handed over, in any interleaving with the thread in which it takes each buffer
-- before it is full: at most four more parts of its round bring all of them to the output, in the order
-- in which they were handed over, and nothing aborts. The last of these parts is one that writes.
pub every_line_written :
    (ops : List Op) (l : Log) (all : List ℕ) (n : ℕ)
    → Complete l all n
    → Fits l.phase n ops
    → (k : ℕ) × (l' : Log) × (k ≤ 4)
      × (run (ops ++ replicate k back) l ≡ ok l')
      × (l'.output ≡ all ++ lines ops)
      × (l'.phase ≡ recycling)
      × Complete l' (all ++ lines ops) 0
every_line_written ops l all n c f =
    let (l₁, m, e, c₁) = run-Complete ops l all n c f in
    let (l', e', o, ph, done) = drain-Complete l₁ (all ++ lines ops) m c₁ in
    (
      parts_left l₁.phase,
      l',
      parts_left_bound l₁.phase,
      run-append ops (replicate (parts_left l₁.phase) back) l ∙ rw e e',
      o,
      ph,
      done,
    )
