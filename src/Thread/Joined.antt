-- ===== src/Thread/Joined.antt =====
-- Which calls of `start` and `join` go through, and what `join` waits for.
use transfer_server.Prelude.{
  ℕ, ◌+◌, ◌-◌, ◌<◌, ◌^◌, ◌≡◌, refl, sym, ap, ◌∙◌, Bool, true, false, List, [], ◌∷◌, Option, none,
  some, ok, abort, arith, length, replicate, bind-ok, ◌>>=◌,
}
use transfer_server.Prelude.Int.{pos, ◌+ℤ◌}
use transfer_server.Thread.{
  Thread, CreateOutcome, created, refused, Call, starts, joins, start, join, run, create,
  add_and_get, get_and_add,
}

-- After the start, only joins.
abbrev pub Joins : List Call → Type 0
Joins [] = Unit {0}
Joins (starts o ∷ ks) = ⊥
Joins (joins ∷ ks) = Joins ks

abbrev pub id_of : CreateOutcome → Option ℕ
id_of (created id) = some id
id_of (refused errno) = none

run-Joins :
    (ks : List Call) (t : Thread)
    → t.started ≡ true
    → Joins ks
    → run ks t ≡ ok (replicate (length ks) t.thread_id, t)
unfolding run join
run-Joins [] t s j = refl
run-Joins (starts o ∷ ks) t s j = absurd j
run-Joins (joins ∷ ks) t s j = ground (arith, s, run-Joins ks t s j)

run_ok-Joins :
    (ks : List Call) (t : Thread) (r : List (Option ℕ) × Thread)
    → t.started ≡ true
    → run ks t ≡ ok r
    → Joins ks
unfolding run start join
run_ok-Joins [] t r s e = tt
run_ok-Joins (starts (created id) ∷ ks) t r s e = ground (arith, s, e)
run_ok-Joins (starts (refused errno) ∷ ks) t r s e = ground (arith, s, e)
run_ok-Joins (joins ∷ ks) t r s e =
    let (id, _, e₁) = bind-ok (join t) _ r e in
    let (r', first, _) = bind-ok (run ks t) _ r e₁ in run_ok-Joins ks t r' s first

abbrev begun : CreateOutcome → Thread → Thread
begun (created id) t = record t { started = true; thread_id = some id }
begun (refused errno) t = record t { started = true }

start-begun :
    (o : CreateOutcome) (t : Thread)
    → t.started ≡ false
    → (b : Bool) × (start o t ≡ ok (begun o t, b))
unfolding start
start-begun (created id) t s = (false, ground (arith, s))
start-begun (refused errno) t s = (true, ground (arith, s))

begun-started : (o : CreateOutcome) (t : Thread) → (begun o t).started ≡ true
begun-started (created id) t = refl
begun-started (refused errno) t = refl

begun-id : (o : CreateOutcome) (t : Thread) → t.thread_id ≡ none → (begun o t).thread_id ≡ id_of o
begun-id (created id) t e = refl
begun-id (refused errno) t e = e

-- On a thread that is not started yet, whatever `pthread_create` answers: after `start()` the calls that
-- go through are exactly those without another `start()`; a `join()` before it aborts; and every
-- `join()` after it calls `pthread_join`, also where `pthread_create` has failed and there is no
-- thread to wait for.
pub run-started :
    (o : CreateOutcome) (ks : List Call) (t : Thread)
    → t.started ≡ false
    → t.thread_id ≡ none
    → ((Joins ks)
        → (t' : Thread) × (run (starts o ∷ ks) t ≡ ok (replicate (length ks) (id_of o), t')))
      × ((r : List (Option ℕ) × Thread) → run (starts o ∷ ks) t ≡ ok r → Joins ks)
      × (run (joins ∷ ks) t ≡ abort)
unfolding run join
run-started o ks t s fresh =
    let (b, e) = start-begun o t s in
    let t' = begun o t in
    let up = begun-started o t in
    let go : run (starts o ∷ ks) t ≡ run ks t' = ap (λ m. m >>= λ r. run ks r.0) e in
    (
      λ j. (
        t',
        go ∙ run-Joins ks t' up j ∙ ap (λ i. ok (replicate (length ks) i, t')) (begun-id o t fresh),
      ),
      λ r h. run_ok-Joins ks t' r up (sym go ∙ h),
      ground (arith, s),
    )

-- Each thread counts once.
pub create-counted :
    (name : List ℕ) (n : ℕ)
    → n < 2 ^ 31 - 1
    → (t : Thread) × (create name (pos n) ≡ ok (t, pos (n + 1)))
      × (t.started ≡ false)
      × (t.thread_id ≡ none)
unfolding create add_and_get get_and_add ◌+ℤ◌
create-counted name n h = (
  record { started = false; thread_id = none; tid = 0; name = name },
  ground (arith, h),
  refl,
  refl,
)
