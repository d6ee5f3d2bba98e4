-- ===== src/EventLoop/Rounds.antt =====
-- The turns of `loop`: what one turn runs, when the loop ends, and what becomes of a `quit` that
-- comes before it.
use transfer_server.Prelude.{
  ◌≡◌, refl, ap, ap₂, ◌∙◌, Bool, if◌then◌else◌, true, false, ◌||◌, List, [], ◌∷◌, ◌++◌, ok, ℕ,
  Bool-cases, inl, inr,
}
use transfer_server.EventLoop.{
  EventLoop, Found, handle_read, quit, run_actions, do_pending_functors, turn, turns, loop, Functor,
}
use transfer_server.EventLoop.Functors.{
  ran_by, queued_by, stopped_by, run_actions-Ran, ran_all, queued_all, stops_any,
  do_pending_functors_lem,
}

-- The queue that `doPendingFunctors` finds in a turn.
abbrev pub taken : EventLoop → Found → List Functor
taken l found = l.pending ++ queued_by found.handlers

-- One turn runs the callbacks of the active channels, then every functor queued before the turn,
-- then those that the callbacks queued; what these functors queue is left for the next turn.
pub turn_lem :
    (l : EventLoop) (found : Found)
    → let r = turn l found in
      (r.0 ≡ ran_by found.handlers ++ ran_all (taken l found))
      × (r.1.pending ≡ queued_all (taken l found))
      × (r.1.quitting ≡ ((l.quitting || stopped_by found.handlers) || stops_any (taken l found)))
      × (r.1.looping ≡ l.looping)
unfolding turn
turn_lem l found = elim (Bool-cases found.woken) [
  | inl w ↦ rw w (after (handle_read l) refl refl refl)
  | inr w ↦ rw w (after l refl refl refl)
]
  where
    after :
        (l₁ : EventLoop)
        → l₁.pending ≡ l.pending
        → l₁.quitting ≡ l.quitting
        → l₁.looping ≡ l.looping
        → let r = run_actions found.handlers l₁ in
          let s = do_pending_functors r.1 in
          (r.0 ++ s.0 ≡ ran_by found.handlers ++ ran_all (taken l found))
          × (s.1.pending ≡ queued_all (taken l found))
          × (s.1.quitting
              ≡ ((l.quitting || stopped_by found.handlers) || stops_any (taken l found)))
          × (s.1.looping ≡ l.looping)
    after l₁ p q k =
        let h = run_actions-Ran found.handlers l₁ in
        let (a, b, c, _, d) = do_pending_functors_lem (run_actions found.handlers l₁).1 in
        let e : (run_actions found.handlers l₁).1.pending ≡ taken l found =
          h.pending ∙ ap (λ xs. xs ++ queued_by found.handlers) p in
        (
          ap₂ (λ (xs : List ℕ) ys. xs ++ ys) h.output (a ∙ ap ran_all e),
          b ∙ ap queued_all e,
          c
              ∙ ap₂ (λ b fs. b || stops_any fs)
                  (h.quitting ∙ ap (λ b. b || stopped_by found.handlers) q) e,
          d ∙ h.looping ∙ k,
        )

-- The turns one after the other, whether `quit` is called or not.
abbrev pub all_turns : EventLoop → List Found → List ℕ × EventLoop
all_turns l [] = ([], l)
all_turns l (found ∷ founds) =
    let r = turn l found in let s = all_turns r.1 founds in (r.0 ++ s.0, s.1)

-- No turn calls `quit`: none of its callbacks, and none of the functors that it finds queued.
abbrev pub GoesOn : EventLoop → List Found → Type 0
GoesOn l [] = Unit {0}
GoesOn l (found ∷ founds) =
    ((stopped_by found.handlers || stops_any (taken l found)) ≡ false)
    × GoesOn (turn l found).1 founds

-- The test of `quit_` in front of a turn.
turns_go :
    (l : EventLoop) (f : Found) (fs : List Found)
    → l.quitting ≡ false
    → turns l (f ∷ fs) ≡ ((turn l f).0 ++ (turns (turn l f).1 fs).0, (turns (turn l f).1 fs).1)
unfolding turns
turns_go l f fs on =
    let r = turn l f in
    let s = turns r.1 fs in
    ap (λ b. if b then ([], record l { looping = false }) else (r.0 ++ s.0, s.1)) on

turns_end :
    (l : EventLoop) (f : Found) (fs : List Found)
    → l.quitting ≡ true
    → turns l (f ∷ fs) ≡ ([], record l { looping = false })
unfolding turns
turns_end l f fs off =
    let r = turn l f in
    let s = turns r.1 fs in
    ap (λ b. if b then ([], record l { looping = false }) else (r.0 ++ s.0, s.1)) off

turn_quitting :
    (l : EventLoop) (found : Found) (b : Bool)
    → l.quitting ≡ false
    → (stopped_by found.handlers || stops_any (taken l found)) ≡ b
    → (turn l found).1.quitting ≡ b
turn_quitting l found b on h =
    (turn_lem l found).2
    ∙ ap (λ x. (x || stopped_by found.handlers) || stops_any (taken l found)) on
    ∙ h

turns_stop :
    (before : List Found) (l : EventLoop) (found next : Found) (rest : List Found)
    → l.quitting ≡ false
    → GoesOn l before
    → (stopped_by found.handlers || stops_any (taken (all_turns l before).1 found)) ≡ true
    → let r = all_turns l (before ++ (found ∷ [])) in
      turns l (before ++ (found ∷ next ∷ rest)) ≡ (r.0, record r.1 { looping = false })
turns_stop [] l found next rest on g h =
    turns_go l found (next ∷ rest) on
    ∙ ap (λ (s : List ℕ × EventLoop). ((turn l found).0 ++ s.0, s.1))
        (turns_end (turn l found).1 next rest (turn_quitting l found true on h))
turns_stop (f ∷ before) l found next rest on g h =
    turns_go l f (before ++ (found ∷ next ∷ rest)) on
    ∙ ap (λ (s : List ℕ × EventLoop). ((turn l f).0 ++ s.0, s.1))
        (turns_stop before (turn l f).1 found next rest (turn_quitting l f false on g.0) g.1 h)

-- The loop when its first turn begins.
abbrev pub begun : EventLoop → EventLoop
begun l = record l { looping = true; quitting = false }

-- A loop that does not run yet goes on as long as no turn calls `quit`, and ends after the first turn in
-- which a callback or a functor calls it, whatever `poll` would find next: what these turns run, one after the
-- other, is all that runs, and `looping_` is down again.
pub loop-stops :
    (l : EventLoop) (before : List Found) (found next : Found) (rest : List Found)
    → l.looping ≡ false
    → GoesOn (begun l) before
    → (stopped_by found.handlers || stops_any (taken (all_turns (begun l) before).1 found)) ≡ true
    → let r = all_turns (begun l) (before ++ (found ∷ [])) in
      loop l (before ++ (found ∷ next ∷ rest)) ≡ ok (r.0, record r.1 { looping = false })
unfolding loop
loop-stops l before found next rest idle g h =
    rw idle (ap ok (turns_stop before (begun l) found next rest refl g h))

-- A `quit` of the loop's own thread before `loop` is lost: the loop runs on as if it had not been
-- called, since `loop` lowers `quit_` again.
pub quit-loop : (l : EventLoop) (founds : List Found) → loop (quit true l) founds ≡ loop l founds
unfolding loop quit
quit-loop l founds = refl
