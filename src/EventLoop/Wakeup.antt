-- ===== src/EventLoop/Wakeup.antt =====
-- The loop's thread and the others, in every interleaving of their steps: a functor that another
-- thread queues while the loop is about to sleep wakes it up.
use transfer_server.Prelude.{
  ℕ, suc, ◌<◌, ◌≡◌, ◌≢◌, ◌⊎◌, inl, inr, refl, sym, subst, ◌∙◌, true, false, List, [], ◌∷◌, arith,
}
use transfer_server.EventLoop.{
  Functor, Actions, EventLoop, wakeup, handle_read, quit, push, run_functor, run_actions,
}
use transfer_server.EventLoop.Functors.{Woken, run_functor-Ran, run_functor-Woken, wakeup-lt}

-- Where the loop's thread stands: in `poll`, before `doPendingFunctors` with the active channels, or
-- in it with the functors taken and not called yet.
pub data Phase : Type 0 where
  polling handling : Phase
  calling_functors : List Functor → Phase

-- `about` counts the other threads between the push and the wakeup of `queueInLoop`.
pub record State : Type 0 where
  pub phase : Phase
  pub about : ℕ
  pub event_loop : EventLoop

abbrev pub in_phase : Phase → ℕ → EventLoop → State
in_phase phase about l = record { phase = phase; about = about; event_loop = l }

pub data Step : State → State → Type 0 where
  other_push :
      (ph : Phase) (n : ℕ) (l : EventLoop) (f : Functor)
      → Step (in_phase ph n l) (in_phase ph (suc n) (push f l))
  other_wakeup :
      (ph : Phase) (n : ℕ) (l : EventLoop) → Step (in_phase ph (suc n) l) (in_phase ph n (wakeup l))
  other_quit :
      (ph : Phase) (n : ℕ) (l : EventLoop) → Step (in_phase ph n l) (in_phase ph n (quit false l))
  poll_returns : (n : ℕ) (l : EventLoop) → Step (in_phase polling n l) (in_phase handling n l)
  wakeup_read :
      (n : ℕ) (l : EventLoop) → Step (in_phase handling n l) (in_phase handling n (handle_read l))
  callback_runs :
      (n : ℕ) (l : EventLoop) (actions : Actions)
      → Step (in_phase handling n l) (in_phase handling n (run_actions actions l).1)
  functors_taken :
      (n : ℕ) (l : EventLoop)
      → Step
          (in_phase handling n l)
          (in_phase (calling_functors l.pending) n (record l { calling = true; pending = [] }))
  functor_called :
      (n : ℕ) (l : EventLoop) (f : Functor) (fs : List Functor)
      → Step
          (in_phase (calling_functors (f ∷ fs)) n l)
          (in_phase (calling_functors fs) n (run_functor f l).1)
  functors_done :
      (n : ℕ) (l : EventLoop)
      → Step
          (in_phase (calling_functors []) n l)
          (in_phase polling n (record l { calling = false }))

pub data Steps (s : State) : State → Type 0 where
  none_yet : Steps s s
  one_more : (t u : State) → Steps s t → Step t u → Steps s u

-- A loop at its start sleeps with nothing to do.
pub record Initial (s : State) : Type 0 where
  pub phase : s.phase ≡ polling
  pub about : s.about ≡ 0
  pub pending : s.event_loop.pending ≡ []

-- Nothing is pending, or the eventfd is readable, or a thread is about to write it.
abbrev pub Answered : ℕ → EventLoop → Type 0
Answered n l = Woken l ⊎ (0 < n)

abbrev pub Safe : Phase → ℕ → EventLoop → Type 0
Safe polling n l = Answered n l
Safe handling n l = Unit {0}
Safe (calling_functors fs) n l = (l.calling ≡ true) × Answered n l

Safe-other :
    (ph : Phase) (n m : ℕ) (l l' : EventLoop)
    → Answered m l'
    → l'.calling ≡ l.calling
    → Safe ph n l
    → Safe ph m l'
Safe-other polling n m l l' a e s = a
Safe-other handling n m l l' a e s = tt
Safe-other (calling_functors fs) n m l l' a e s = (e ∙ s.0, a)

wakeup-calling : (l : EventLoop) → (wakeup l).calling ≡ l.calling
unfolding wakeup
wakeup-calling l = ground arith

quit_lem : (l : EventLoop) → (0 < (quit false l).eventfd) × ((quit false l).calling ≡ l.calling)
unfolding quit
quit_lem l = (wakeup-lt _, wakeup-calling _)

Safe-Step :
    (s t : State) → Step s t → Safe s.phase s.about s.event_loop → Safe t.phase t.about t.event_loop
Safe-Step _ _ (other_push ph n l f) s =
    Safe-other ph n (suc n) l (push f l) (inr (omega arith)) refl s
Safe-Step _ _ (other_wakeup ph n l) s =
    Safe-other ph (suc n) n l (wakeup l) (inl (inr (wakeup-lt l))) (wakeup-calling l) s
Safe-Step _ _ (other_quit ph n l) s =
    Safe-other ph n n l (quit false l) (inl (inr (quit_lem l).0)) (quit_lem l).1 s
Safe-Step _ _ (poll_returns n l) s = tt
Safe-Step _ _ (wakeup_read n l) s = tt
Safe-Step _ _ (callback_runs n l actions) s = tt
Safe-Step _ _ (functors_taken n l) s = (refl, inl (inl refl))
Safe-Step _ _ (functor_called n l f fs) (c, a) = (
  (run_functor-Ran f l).calling ∙ c,
  elim a [ inl w ↦ inl (run_functor-Woken f l c w) | inr h ↦ inr h ],
)
Safe-Step _ _ (functors_done n l) (c, a) = a

Safe-Initial : (s : State) → Initial s → Safe s.phase s.about s.event_loop
Safe-Initial s i = subst (λ ph. Safe ph s.about s.event_loop) (sym i.phase) (inl (inl i.pending))

Safe-Steps : (s t : State) → Initial s → Steps s t → Safe t.phase t.about t.event_loop
Safe-Steps s t i none_yet = Safe-Initial s i
Safe-Steps s t i (one_more u _ path step) = Safe-Step u t step (Safe-Steps s u i path)

-- No wakeup is lost: whatever the other threads do, in every state that the loop can reach from its
-- start in which it is in `poll` and a functor is pending, the eventfd is readable or a thread is
-- about to write it.
pub no_lost_wakeup :
    (s t : State)
    → Initial s
    → Steps s t
    → t.phase ≡ polling
    → t.event_loop.pending ≢ []
    → (0 < t.event_loop.eventfd) ⊎ (0 < t.about)
no_lost_wakeup s t i path e ne =
    elim (subst (λ ph. Safe ph t.about t.event_loop) e (Safe-Steps s t i path)) [
      | inl (inl none) ↦ absurd (ne none)
      | inl (inr h) ↦ inl h
      | inr h ↦ inr h
    ]
