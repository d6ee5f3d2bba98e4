-- ===== src/CountDownLatch/Waiting.antt =====
-- No thread returns early, and none sleeps on.
use transfer_server.Prelude.{
  ℕ, zero, suc, ◌+◌, ◌<◌, ◌≤◌, ◌≡◌, refl, ap, ◌∙◌, List, [], ◌∷◌, map, true, false, ltb, arith, All,
  All-imp, All-append, Bool-cases, inl, inr,
}
use transfer_server.Prelude.Int.{ℤ, pos, negsuc}
use transfer_server.CountDownLatch.{
  Waiter, checking, asleep, returned, CountDownLatch, wake_up, decrement, is_zero, is_positive,
  count_down, check, Op, counts, goes_on, wakes, calls, update_at, step, run, create,
}

-- A thread sleeps only while the count is positive, and has returned only when it is not.
abbrev pub Right : ℤ → Waiter → Type 0
Right count checking = Unit {0}
Right count asleep = is_positive count ≡ true
Right count returned = is_positive count ≡ false

-- What is left of `n` after `k` calls.
abbrev pub left : ℕ → ℕ → ℤ
left n zero = pos n
left n (suc k) = decrement (left n k)

check-Right : (count : ℤ) (w : Waiter) → Right count w → Right count (check count w)
check-Right count checking h = elim (Bool-cases (is_positive count)) [
  | inl p ↦ rw p p
  | inr p ↦ rw p p
]
check-Right count asleep h = h
check-Right count returned h = h

wake_up-Right : (count : ℤ) (w : Waiter) → Right count w → Right count (wake_up w)
wake_up-Right count checking h = h
wake_up-Right count asleep h = tt
wake_up-Right count returned h = h

update_at-Right :
    (count : ℤ) (f : Waiter → Waiter) (i : ℕ) (ws : List Waiter)
    → ((w : Waiter) → Right count w → Right count (f w))
    → All (Right count) ws
    → All (Right count) (update_at i f ws)
update_at-Right count f i [] g h = tt
update_at-Right count f zero (w ∷ ws) g h = (g w h.0, h.1)
update_at-Right count f (suc i) (w ∷ ws) g h = (h.0, update_at-Right count f i ws g h.1)

zero_positive : (c : ℤ) → is_zero c ≡ true → is_positive c ≡ false
zero_positive (pos zero) z = refl
zero_positive (pos (suc n)) z = cc z
zero_positive (negsuc n) z = refl

-- At 0 all are woken.
woken-Right :
    (ws : List Waiter) (count : ℤ)
    → is_zero (decrement count) ≡ true
    → All (Right count) ws
    → All (Right (decrement count)) (map wake_up ws)
woken-Right [] count z h = tt
woken-Right (checking ∷ ws) count z h = (tt, woken-Right ws count z h.1)
woken-Right (asleep ∷ ws) count z h = (tt, woken-Right ws count z h.1)
woken-Right (returned ∷ ws) count z h =
    (zero_positive (decrement count) z, woken-Right ws count z h.1)

-- Elsewhere a count changes nothing for anyone.
quiet-Right :
    (count : ℤ) (w : Waiter)
    → is_zero (decrement count) ≡ false
    → Right count w
    → Right (decrement count) w
quiet-Right count checking z h = tt
quiet-Right (pos zero) asleep z h = h
quiet-Right (pos (suc zero)) asleep z h = cc z
quiet-Right (pos (suc (suc n))) asleep z h = refl
quiet-Right (negsuc n) asleep z h = h
quiet-Right (pos zero) returned z h = refl
quiet-Right (pos (suc zero)) returned z h = refl
quiet-Right (pos (suc (suc n))) returned z h = h
quiet-Right (negsuc n) returned z h = refl

step-Right :
    (op : Op) (l : CountDownLatch)
    → All (Right l.count) l.waiters
    → All (Right (step op l).count) (step op l).waiters
unfolding count_down
step-Right counts l h = elim (Bool-cases (is_zero (decrement l.count))) [
  | inl z ↦ rw z (woken-Right l.waiters l.count z h)
  | inr z ↦ rw z (
      All-imp (Right l.count) (Right (decrement l.count)) l.waiters (λ w. quiet-Right l.count w z)
        h)
]
step-Right (goes_on i) l h =
    update_at-Right l.count (check l.count) i l.waiters (check-Right l.count) h
step-Right (wakes i) l h = update_at-Right l.count wake_up i l.waiters (wake_up-Right l.count) h
step-Right calls l h = All-append (Right l.count) l.waiters (checking ∷ []) h (tt, tt)

run-Right :
    (ops : List Op) (l : CountDownLatch)
    → All (Right l.count) l.waiters
    → All (Right (run ops l).count) (run ops l).waiters
run-Right [] l h = h
run-Right (op ∷ ops) l h = run-Right ops (step op l) (step-Right op l h)

-- How many calls of `countDown` there are.
abbrev pub counted : List Op → ℕ
counted [] = 0
counted (counts ∷ ops) = suc (counted ops)
counted (_ ∷ ops) = counted ops

run-left :
    (n k : ℕ) (ops : List Op) (l : CountDownLatch)
    → l.count ≡ left n k
    → (run ops l).count ≡ left n (counted ops + k)
unfolding count_down
run-left n k [] l e = let z : k ≡ 0 + k = omega arith in e ∙ ap (left n) z
run-left n k (counts ∷ ops) l e =
    let z : counted ops + suc k ≡ suc (counted ops) + k = omega arith in
    run-left n (suc k) ops (count_down l) (ap decrement e) ∙ ap (left n) z
run-left n k (goes_on i ∷ ops) l e = run-left n k ops (step (goes_on i) l) e
run-left n k (wakes i ∷ ops) l e = run-left n k ops (step (wakes i) l) e
run-left n k (calls ∷ ops) l e = run-left n k ops (step calls l) e

left-suc : (n k : ℕ) → left (suc n) (suc k) ≡ left n k
left-suc n zero = refl
left-suc n (suc k) = ap decrement (left-suc n k)

left-negsuc : (k : ℕ) → left zero (suc k) ≡ negsuc k
left-negsuc zero = refl
left-negsuc (suc k) = ap decrement (left-negsuc k)

is_positive-left : (n k : ℕ) → is_positive (left n k) ≡ ltb k n
is_positive-left zero zero = refl
is_positive-left zero (suc k) = ap is_positive (left-negsuc k) ∙ ground (arith)
is_positive-left (suc n) zero = ground (arith)
is_positive-left (suc n) (suc k) =
    ap is_positive (left-suc n k) ∙ is_positive-left n k ∙ ground (arith)

-- A thread that sleeps does so before the `n`-th call, and one that has returned does so after it.
abbrev pub InTime : ℕ → ℕ → Waiter → Type 0
InTime n k checking = Unit {0}
InTime n k asleep = k < n
InTime n k returned = n ≤ k

-- On a latch that starts with `n`, after any sequence of calls of `countDown`, calls and rounds of `wait`
-- and wake-ups without reason: a thread sleeps in `wait` only if there were less than `n` calls of
-- `countDown`, and a thread has returned only if there were `n` or more.
pub run-InTime : (n : ℕ) (ops : List Op) → All (InTime n (counted ops)) (run ops (create n)).waiters
run-InTime n ops =
    let l = run ops (create n) in
    let z : counted ops + 0 ≡ counted ops = omega arith in
    let p : is_positive l.count ≡ ltb (counted ops) n =
      ap is_positive (run-left n 0 ops (create n) refl ∙ ap (left n) z)
      ∙ is_positive-left n (counted ops) in
    All-imp (Right l.count) (InTime n (counted ops)) l.waiters (in_time p)
      (run-Right ops (create n) tt)
  where
    in_time :
        is_positive (run ops (create n)).count ≡ ltb (counted ops) n
        → (w : Waiter) → Right (run ops (create n)).count w
        → InTime n (counted ops) w
    in_time p checking h = tt
    in_time p asleep h = ground (arith, p, h)
    in_time p returned h = ground (arith, p, h)
