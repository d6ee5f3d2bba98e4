-- ===== src/TcpServer/Pool.antt =====
-- The pool gives its loops out in turn.
use transfer_server.Prelude.{
  ℕ, zero, suc, ◌+◌, ◌-◌, ◌<◌, ◌≡◌, refl, ap, ◌∙◌, true, false, dec_lt, drop_all, List, [], ◌∷◌,
  ◌++◌, ok, abort, Checked, ◌>>=◌, arith, if◌then◌else◌, leb, length, get_elem?, take, drop, some,
}
use transfer_server.TcpServer.{ThreadPool, get_next_loop}

-- The loops that `k` calls give.
unfoldable pub next_loops : ℕ → ThreadPool → Checked (List ℕ × ThreadPool)
next_loops zero p = ok ([], p)
next_loops (suc k) p = get_next_loop p >>= λ r. next_loops k r.1 >>= λ s. ok (r.0 ∷ s.0, s.1)

abbrev at : ThreadPool → ℕ → ThreadPool
at p i = record p { next = i }

drop_elem :
    {A : Type 0} (xs : List A) (i : ℕ)
    → i < length xs
    → (x : A) × (get_elem? xs i ≡ some x) × (drop i xs ≡ x ∷ drop (i + 1) xs)
drop_elem [] i h = absurd (omega arith)
drop_elem (x ∷ xs) zero h = (x, refl, refl)
drop_elem (x ∷ xs) (suc i) h =
    let (y, e, d) = drop_elem xs i (omega arith) in
    (y, e, d ∙ ap (λ j. y ∷ drop j (x ∷ xs)) {x = suc (i + 1)} {y = suc i + 1} (omega arith))

get_next_loop-some :
    (p : ThreadPool) (i : ℕ) (l : ℕ)
    → get_elem? p.loops i ≡ some l
    → get_next_loop (at p i) ≡ ok (l, at p (if leb (length p.loops) (i + 1) then 0 else i + 1))
unfolding get_next_loop
get_next_loop-some p i l e = go p.loops e
  where
    go :
        (ls : List ℕ)
        → get_elem? ls i ≡ some l
        → get_next_loop (record p { next = i; loops = ls })
          ≡ ok (l, record p { next = if leb (length ls) (i + 1) then 0 else i + 1; loops = ls })
    go [] e = cc
    go (x ∷ ls) e = rw (e, get_next_loop) refl

-- To the end of the loops, and then `k` more calls.
next_loops-end :
    (n : ℕ) (p : ThreadPool) (i k : ℕ)
    → i + n ≡ length p.loops
    → 0 < n
    → next_loops (n + k) (at p i) ≡ (next_loops k (at p 0) >>= λ s. ok (drop i p.loops ++ s.0, s.1))
unfolding next_loops
next_loops-end zero p i k e pos = absurd (omega arith)
next_loops-end (suc n) p i k e pos =
    let (l, g, d) = drop_elem p.loops i (omega arith) in
    let step = get_next_loop-some p i l g in
    ap (λ m. next_loops m (at p i)) {x = suc n + k} {y = suc (n + k)} (omega arith)
    ∙ elim (dec_lt 0 n) [
      | yes more ↦
          let ih = next_loops-end n p (i + 1) k (omega arith) more in
          let b : leb (length p.loops) (i + 1) ≡ false = ground arith in
          rw (step, b, ih, d) (bind_assoc l (drop (i + 1) p.loops) (next_loops k (at p 0)))
      | no last ↦
          let z : n + k ≡ k = omega arith in
          let b : leb (length p.loops) (i + 1) ≡ true = ground arith in
          let nothing : drop (i + 1) p.loops ≡ [] = drop_all (i + 1) p.loops (omega arith) in
          rw (step, b, d, nothing, z) refl
    ]
  where
    bind_assoc :
        (l : ℕ) (xs : List ℕ) (m : Checked (List ℕ × ThreadPool))
        → let inner : Checked (List ℕ × ThreadPool) = m >>= (λ s. ok (xs ++ s.0, s.1)) in
          let whole : Checked (List ℕ × ThreadPool) = inner >>= (λ s. ok (l ∷ s.0, s.1)) in
          whole ≡ (m >>= λ s. ok ((l ∷ xs) ++ s.0, s.1))
    bind_assoc l xs (ok s) = refl
    bind_assoc l xs abort = refl

next_loops-start :
    (k : ℕ) (p : ThreadPool) (i : ℕ)
    → i + k < length p.loops
    → next_loops k (at p i) ≡ ok (take k (drop i p.loops), at p (i + k))
unfolding next_loops
next_loops-start zero p i h = ap (λ j. ok ([], at p j)) {x = i} (omega arith)
next_loops-start (suc k) p i h =
    let (l, g, d) = drop_elem p.loops i (omega arith) in
    let step = get_next_loop-some p i l g in
    let b : leb (length p.loops) (i + 1) ≡ false = ground arith in
    let ih = next_loops-start k p (i + 1) (omega arith) in
    rw (step, b, ih, d)
      (ap (λ j. ok (l ∷ take k (drop (i + 1) p.loops), at p j)) {x = i + 1 + k} (omega arith))

-- In a pool whose next index is one of its loops, calls of `getNextLoop` give the loops out in
-- turn: as many calls as there are loops give each of them once, from the next one on to the last
-- and then from the first, and the pool is then as it was.
pub next_loops-cycle :
    (p : ThreadPool)
    → p.next < length p.loops
    → next_loops (length p.loops) p ≡ ok (drop p.next p.loops ++ take p.next p.loops, p)
next_loops-cycle p h =
    let n = length p.loops - p.next in
    ap (λ k. next_loops k p) {y = n + p.next} (omega arith)
    ∙ next_loops-end n p p.next p.next (omega arith) (omega arith)
    ∙ ap (λ m. m >>= λ s. ok (drop p.next p.loops ++ s.0, s.1))
        (next_loops-start p.next p 0 (omega arith))
    ∙ ap (λ j. ok (drop p.next p.loops ++ take p.next p.loops, at p j)) {x = 0 + p.next}
        (omega arith)
