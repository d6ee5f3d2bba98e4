-- ===== src/Timer/Reset.antt =====
-- `reset`: of the expired timers the repeating ones go back into the set with a new time, the
-- others are deleted.
use mathlib.Core.List.{Perm, perm_append_comm}
use mathlib.Core.List.Perm
use transfer_server.Prelude.{
  ℕ, ◌≡◌, ◌≢◌, refl, sym, ap, subst, ◌∙◌, true, false, List, [], ◌∷◌, ◌++◌, Option, some, none,
  arith, All, Free, if◌then◌else◌, Bool-cases, inl, inr, find, assign, erase, find-assign,
  find-erase, nat_eq, ok, append_assoc,
}
use transfer_server.Timestamp.{Timestamp, before, add_time}
use transfer_server.Timer.Set.{addresses, set_insert-perm, set_insert-fresh}
use transfer_server.Timer.Inv.{Inv, inserted, insert-Inv, assign-Inv, erase-Inv}
use transfer_server.Timer.{
  Entry, Timer, TimerQueue, insert, is_earliest, restart, reset_timer, reset_entries,
}

-- The entry with which an expired timer goes back into the set, if it repeats.
abbrev pub renewed_entry : Option Timer → ℕ → Timestamp → List Entry
renewed_entry none p now = []
renewed_entry (some timer) p now =
    if timer.repeats then (add_time now timer.interval, p) ∷ [] else []

abbrev pub renewed : List (ℕ × Timer) → List Entry → Timestamp → List Entry
renewed heap [] now = []
renewed heap ((t, p) ∷ es) now = renewed_entry (find p heap) p now ++ renewed heap es now

-- What is left on the heap of an expired timer.
abbrev pub left_over : Option Timer → Timestamp → Option Timer
left_over none now = none
left_over (some timer) now =
    if timer.repeats then some (record timer { expiration = add_time now timer.interval }) else none

-- Each expired timer is renewed or deleted.
abbrev pub Settled : List (ℕ × Timer) → List (ℕ × Timer) → Timestamp → Entry → Type 0
Settled before after now x = find x.1 after ≡ left_over (find x.1 before) now

pub record Reset (q : TimerQueue) (es : List Entry) (now : Timestamp) (q' : TimerQueue)
    : Type 0 where
  pub inv : Inv [] q'
  pub timers : Perm q'.timers (renewed q.heap es now ++ q.timers)
  pub settled : All (Settled q.heap q'.heap now) es
  pub others : (c : ℕ) → Free c (addresses es) → find c q'.heap ≡ find c q.heap
  pub next : q'.next ≡ q.next
  pub armed : q'.armed ≡ q.armed

renewed_frame :
    (heap heap' : List (ℕ × Timer)) (es : List Entry) (now : Timestamp) (p : ℕ)
    → ((c : ℕ) → p ≢ c → find c heap' ≡ find c heap)
    → Free p (addresses es)
    → renewed heap' es now ≡ renewed heap es now
renewed_frame heap heap' [] now p h f = refl
renewed_frame heap heap' ((t, c) ∷ es) now p h f =
    rw (h c (λ e. f.0 (sym e)), renewed_frame heap heap' es now p h f.1) refl

-- The state after one round on a repeating timer, and on another one.
abbrev renew : TimerQueue → ℕ → Timer → Timestamp → TimerQueue
renew q p timer now =
    inserted
      (record q {
        heap = assign p (record timer { expiration = add_time now timer.interval }) q.heap;
      })
      p (add_time now timer.interval)

abbrev drop_timer : TimerQueue → ℕ → TimerQueue
drop_timer q p = record q { heap = erase p q.heap }

module _ (held : List ℕ) (q : TimerQueue) (p : ℕ) (timer : Timer) (now : Timestamp)
    (i : Inv (p ∷ held) q) where
  renewed_lem :
      (insert
          (record q {
            heap = assign p (record timer { expiration = add_time now timer.interval }) q.heap;
          })
          p
          (add_time now timer.interval)
        ≡ ok (is_earliest (add_time now timer.interval) q.timers, renew q p timer now))
      × Inv held (renew q p timer now)
  renewed_lem =
      insert-Inv held _ p (record timer { expiration = add_time now timer.interval })
        (assign-Inv held q p (record timer { expiration = add_time now timer.interval }) i)
        (ground (
          arith,
          find-assign p p (record timer { expiration = add_time now timer.interval }) q.heap,
        ))

  reset_timer-renew :
      timer.repeats ≡ true → reset_timer q p now (some timer) ≡ ok (renew q p timer now)
  unfolding reset_timer restart
  reset_timer-renew e = ground (arith, renewed_lem.0)

  reset_timer-drop : timer.repeats ≡ false → reset_timer q p now (some timer) ≡ ok (drop_timer q p)
  unfolding reset_timer
  reset_timer-drop e = ground arith

  renew-joins : Perm (renew q p timer now).timers ((add_time now timer.interval, p) ∷ q.timers)
  renew-joins =
      set_insert-perm (add_time now timer.interval, p) q.timers
        (set_insert-fresh (add_time now timer.interval) p q.timers i.apart.0)

-- What one round does to the queue.
record Round (q : TimerQueue) (p : ℕ) (now : Timestamp) (q₁ : TimerQueue) : Type 0 where
  timers : Perm q₁.timers (renewed_entry (find p q.heap) p now ++ q.timers)
  here : find p q₁.heap ≡ left_over (find p q.heap) now
  others : (c : ℕ) → p ≢ c → find c q₁.heap ≡ find c q.heap
  next : q₁.next ≡ q.next
  armed : q₁.armed ≡ q.armed

Settled-frame :
    (q q₁ : TimerQueue) (p : ℕ) (now : Timestamp) (heap : List (ℕ × Timer)) (es : List Entry)
    → Round q p now q₁
    → Free p (addresses es)
    → All (Settled q₁.heap heap now) es
    → All (Settled q.heap heap now) es
Settled-frame q q₁ p now heap [] r f a = tt
Settled-frame q q₁ p now heap ((t, c) ∷ es) r f a = (
  a.0 ∙ ap (λ o. left_over o now) (r.others c (λ e. f.0 (sym e))),
  Settled-frame q q₁ p now heap es r f.1 a.1,
)

Reset-cons :
    (q q₁ q' : TimerQueue) (t : Timestamp) (p : ℕ) (es : List Entry) (now : Timestamp)
    → Round q p now q₁
    → Free p (addresses es)
    → Reset q₁ es now q'
    → Reset q ((t, p) ∷ es) now q'
Reset-cons q q₁ q' t p es now r f s = record {
  inv = s.inv;
  timers = Perm.trans s.timers (
      Perm.trans
        (subst (λ l. Perm (l ++ q₁.timers) (renewed q.heap es now ++ (entry ++ q.timers)))
          (sym (renewed_frame q.heap q₁.heap es now p r.others f))
          (Perm.append_left (renewed q.heap es now) r.timers))
        (subst (λ l. Perm l ((entry ++ renewed q.heap es now) ++ q.timers))
          (append_assoc (renewed q.heap es now) entry q.timers)
          (Perm.append_right q.timers (perm_append_comm (renewed q.heap es now) entry))));
  settled = (s.others p f ∙ r.here, Settled-frame q q₁ p now q'.heap es r f s.settled);
  others = λ c g. s.others c g.1 ∙ r.others c g.0;
  next = s.next ∙ r.next;
  armed = s.armed ∙ r.armed;
}
  where
    entry : List Entry
    entry = renewed_entry (find p q.heap) p now

module _ (held : List ℕ) (q : TimerQueue) (p : ℕ) (timer : Timer) (now : Timestamp)
    (i : Inv (p ∷ held) q) (e : find p q.heap ≡ some timer) where
  renew-Round : timer.repeats ≡ true → Round q p now (renew q p timer now)
  renew-Round r = record {
    timers = rw e (rw r (renew-joins held q p timer now i));
    here =
        ground (
          arith,
          find-assign p p (record timer { expiration = add_time now timer.interval }) q.heap,
        );
    others = λ c ne.
        ground (
          arith,
          find-assign p c (record timer { expiration = add_time now timer.interval }) q.heap,
        );
    next = refl;
    armed = refl;
  }

  drop-Round : timer.repeats ≡ false → Round q p now (drop_timer q p)
  drop-Round o = record {
    timers = rw e (rw o (Perm.refl q.timers));
    here = ground (arith, find-erase p p q.heap);
    others = λ c ne. ground (arith, find-erase p c q.heap);
    next = refl;
    armed = refl;
  }

-- Where the invariant holds with the expired timers held, the loop of `reset` passes every
-- assertion and does what `Reset` says: each of these timers is renewed or deleted, the renewed
-- ones join the set, and nothing else changes.
pub reset_entries-Reset :
    (es : List Entry) (q : TimerQueue) (now : Timestamp)
    → Inv (addresses es) q
    → (q' : TimerQueue) × (reset_entries q es now ≡ ok q') × Reset q es now q'
unfolding reset_entries
reset_entries-Reset [] q now i = (
  q,
  refl,
  record {
    inv = i;
    timers = Perm.refl q.timers;
    settled = tt;
    others = λ c f. refl;
    next = refl;
    armed = refl;
  },
)
reset_entries-Reset ((t, p) ∷ es) q now i =
    let timer = i.held_live.0.0 in
    let e : find p q.heap ≡ some timer = i.held_live.0.1 in
    elim (Bool-cases timer.repeats) [
      | inl r ↦
          let q₁ = renew q p timer now in
          let (q', eq, s) =
            reset_entries-Reset es q₁ now (renewed_lem (addresses es) q p timer now i).1 in
          (
            q',
            rw (e, reset_timer-renew (addresses es) q p timer now i r) eq,
            Reset-cons q q₁ q' t p es now (renew-Round (addresses es) q p timer now i e r)
                i.held_distinct.0 s,
          )
      | inr o ↦
          let q₁ = drop_timer q p in
          let (q', eq, s) = reset_entries-Reset es q₁ now (erase-Inv (addresses es) q p i) in
          (
            q',
            rw (e, reset_timer-drop (addresses es) q p timer now i o) eq,
            Reset-cons q q₁ q' t p es now (drop-Round (addresses es) q p timer now i e o)
                i.held_distinct.0 s,
          )
    ]
