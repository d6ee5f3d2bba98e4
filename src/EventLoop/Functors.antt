-- ===== src/EventLoop/Functors.antt =====
-- What a functor runs, what it queues, and whether it stops the loop: `doPendingFunctors` against the
-- order of the queue.
use transfer_server.Prelude.{
  ℕ, ◌<◌, ◌≡◌, ◌⊎◌, inl, inr, refl, sym, ap, ◌∙◌, Bool, true, false, ◌||◌, List, [], ◌∷◌, ◌++◌,
  append_assoc, append-nil, arith,
}
use transfer_server.EventLoop.{
  Functor, functor, Actions, done, queue, run_now, stop, EventLoop, wakeup, quit, push,
  queue_in_loop, run_functor, run_actions, run_functors, do_pending_functors,
}

unfoldable mutual
  -- The names that run, in their order: a functor that is run at once runs inside its caller.
  pub ran : Functor → List ℕ
  ran (functor k actions) = k ∷ ran_by actions

  pub ran_by : Actions → List ℕ
  ran_by done = []
  ran_by (queue f rest) = ran_by rest
  ran_by (run_now f rest) = ran f ++ ran_by rest
  ran_by (stop rest) = ran_by rest

unfoldable mutual
  -- The functors left for the next turn.
  pub queued : Functor → List Functor
  queued (functor k actions) = queued_by actions

  pub queued_by : Actions → List Functor
  queued_by done = []
  queued_by (queue f rest) = f ∷ queued_by rest
  queued_by (run_now f rest) = queued f ++ queued_by rest
  queued_by (stop rest) = queued_by rest

unfoldable mutual
  pub stops : Functor → Bool
  stops (functor k actions) = stopped_by actions

  pub stopped_by : Actions → Bool
  stopped_by done = false
  stopped_by (queue f rest) = stopped_by rest
  stopped_by (run_now f rest) = stops f || stopped_by rest
  stopped_by (stop rest) = true

-- A queue that holds something has woken the loop up.
abbrev pub Woken : EventLoop → Type 0
Woken l = (l.pending ≡ []) ⊎ (0 < l.eventfd)

-- From `l` to `l'` with this output: what was queued, whether the loop was stopped, what stays.
pub record Ran (l : EventLoop) (out : List ℕ) (fs : List Functor) (b : Bool)
    (r : List ℕ × EventLoop) : Type 0 where
  pub output : r.0 ≡ out
  pub pending : r.1.pending ≡ l.pending ++ fs
  pub quitting : r.1.quitting ≡ (l.quitting || b)
  pub calling : r.1.calling ≡ l.calling
  pub looping : r.1.looping ≡ l.looping

queue-Ran : (f : Functor) (l : EventLoop) → Ran l [] (f ∷ []) false ([], queue_in_loop true f l)
unfolding queue_in_loop wakeup
queue-Ran f l = record {
  output = refl;
  pending = ground arith;
  quitting = ground arith;
  calling = ground arith;
  looping = ground arith;
}

quit-Ran : (l : EventLoop) → Ran l [] [] true ([], quit true l)
unfolding quit
quit-Ran l = record {
  output = refl;
  pending = sym (append-nil l.pending);
  quitting = ground arith;
  calling = refl;
  looping = refl;
}

-- One run after another.
Ran-append :
    (l : EventLoop) (out out' : List ℕ) (fs gs : List Functor) (a b : Bool)
    (r s : List ℕ × EventLoop)
    → Ran l out fs a r
    → Ran r.1 out' gs b s
    → Ran l (out ++ out') (fs ++ gs) (a || b) (r.0 ++ s.0, s.1)
Ran-append l out out' fs gs a b r s h k = record {
  output = rw (h.output, k.output) refl;
  pending = k.pending ∙ ap (λ xs. xs ++ gs) h.pending ∙ append_assoc l.pending fs gs;
  quitting = ground (arith, h.quitting, k.quitting);
  calling = k.calling ∙ h.calling;
  looping = k.looping ∙ h.looping;
}

mutual
  unfolding run_functor run_actions ran ran_by queued queued_by stops stopped_by

  pub run_functor-Ran :
      (f : Functor) (l : EventLoop) → Ran l (ran f) (queued f) (stops f) (run_functor f l)
  run_functor-Ran (functor k actions) l =
      let h = run_actions-Ran actions l in
      record {
        output = ap (λ xs. k ∷ xs) h.output;
        pending = h.pending;
        quitting = h.quitting;
        calling = h.calling;
        looping = h.looping;
      }

  pub run_actions-Ran :
      (actions : Actions) (l : EventLoop)
      → Ran l (ran_by actions) (queued_by actions) (stopped_by actions) (run_actions actions l)
  run_actions-Ran done l = record {
    output = refl;
    pending = sym (append-nil l.pending);
    quitting = ground arith;
    calling = refl;
    looping = refl;
  }
  run_actions-Ran (queue f rest) l =
      Ran-append l [] (ran_by rest) (f ∷ []) (queued_by rest) false (stopped_by rest)
        ([], queue_in_loop true f l) (run_actions rest (queue_in_loop true f l)) (queue-Ran f l)
        (run_actions-Ran rest (queue_in_loop true f l))
  run_actions-Ran (run_now f rest) l =
      Ran-append l (ran f) (ran_by rest) (queued f) (queued_by rest) (stops f) (stopped_by rest)
        (run_functor f l) (run_actions rest (run_functor f l).1) (run_functor-Ran f l)
        (run_actions-Ran rest (run_functor f l).1)
  run_actions-Ran (stop rest) l =
      Ran-append l [] (ran_by rest) [] (queued_by rest) true (stopped_by rest) ([], quit true l)
        (run_actions rest (quit true l)) (quit-Ran l) (run_actions-Ran rest (quit true l))

abbrev pub ran_all : List Functor → List ℕ
ran_all [] = []
ran_all (f ∷ fs) = ran f ++ ran_all fs

abbrev pub queued_all : List Functor → List Functor
queued_all [] = []
queued_all (f ∷ fs) = queued f ++ queued_all fs

abbrev pub stops_any : List Functor → Bool
stops_any [] = false
stops_any (f ∷ fs) = stops f || stops_any fs

run_functors-Ran :
    (fs : List Functor) (l : EventLoop)
    → Ran l (ran_all fs) (queued_all fs) (stops_any fs) (run_functors fs l)
unfolding run_functors
run_functors-Ran [] l = record {
  output = refl;
  pending = sym (append-nil l.pending);
  quitting = ground arith;
  calling = refl;
  looping = refl;
}
run_functors-Ran (f ∷ fs) l =
    Ran-append l (ran f) (ran_all fs) (queued f) (queued_all fs) (stops f) (stops_any fs)
      (run_functor f l) (run_functors fs (run_functor f l).1) (run_functor-Ran f l)
      (run_functors-Ran fs (run_functor f l).1)

-- `doPendingFunctors` runs exactly the functors that were queued before it, in their order, each with
-- what it runs at once inside it; what they queue is left for the next turn, in its order; the loop is
-- to stop if it was to stop or one of them says so; the flag of the call is down again.
pub do_pending_functors_lem :
    (l : EventLoop)
    → let r = do_pending_functors l in
      (r.0 ≡ ran_all l.pending)
      × (r.1.pending ≡ queued_all l.pending)
      × (r.1.quitting ≡ (l.quitting || stops_any l.pending))
      × (r.1.calling ≡ false)
      × (r.1.looping ≡ l.looping)
unfolding do_pending_functors
do_pending_functors_lem l =
    let h = run_functors-Ran l.pending (record l { calling = true; pending = [] }) in
    (h.output, h.pending, h.quitting, refl, h.looping)

-- Waking the loop up leaves the counter above 0.
pub wakeup-lt : (l : EventLoop) → 0 < (wakeup l).eventfd
unfolding wakeup
wakeup-lt l = ground arith

pub quit-awake : (l : EventLoop) → 0 < l.eventfd → 0 < (quit true l).eventfd
unfolding quit
quit-awake l h = ground arith

pub queue-awake :
    (in_loop : Bool) (f : Functor) (l : EventLoop)
    → 0 < l.eventfd
    → 0 < (queue_in_loop in_loop f l).eventfd
unfolding queue_in_loop
queue-awake in_loop f l h = ground (arith, wakeup-lt (push f l))

queue-Woken :
    (f : Functor) (l : EventLoop) → l.calling ≡ true → 0 < (queue_in_loop true f l).eventfd
unfolding queue_in_loop
queue-Woken f l h = ground (arith, wakeup-lt (push f l))

quit_pending : (l : EventLoop) → (quit true l).pending ≡ l.pending
unfolding quit
quit_pending l = refl

mutual
  unfolding run_functor run_actions

  -- While the pending functors are called, a call of `queueInLoop` wakes the loop up.
  pub run_functor-Woken :
      (f : Functor) (l : EventLoop) → l.calling ≡ true → Woken l → Woken (run_functor f l).1
  run_functor-Woken (functor k actions) l c w = run_actions-Woken actions l c w

  run_actions-Woken :
      (actions : Actions) (l : EventLoop)
      → l.calling ≡ true
      → Woken l
      → Woken (run_actions actions l).1
  run_actions-Woken done l c w = w
  run_actions-Woken (queue f rest) l c w =
      run_actions-Woken rest (queue_in_loop true f l) ((queue-Ran f l).calling ∙ c)
        (inr (queue-Woken f l c))
  run_actions-Woken (run_now f rest) l c w =
      run_actions-Woken rest (run_functor f l).1 ((run_functor-Ran f l).calling ∙ c)
        (run_functor-Woken f l c w)
  run_actions-Woken (stop rest) l c w =
      run_actions-Woken rest (quit true l) ((quit-Ran l).calling ∙ c)
        (elim w [ inl e ↦ inl (quit_pending l ∙ e) | inr h ↦ inr (quit-awake l h) ])
