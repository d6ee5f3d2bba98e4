-- ===== src/Timer/Handle.antt =====
-- `handleRead` as a whole: `getExpired`, the callbacks with the timers that they add, `reset`.
use mathlib.Core.List.{Perm}
use mathlib.Core.List.Perm
use transfer_server.Prelude.{
  ℕ, ◌+◌, ◌≤◌, ◌<◌, ◌≡◌, ◌⊎◌, refl, ap, subst, ◌∙◌, false, List, [], ◌∷◌, ◌++◌, some, arith, All,
  Distinct, if◌then◌else◌, Bool-cases, inl, inr, find, nat_eq, ok, length, map-append, All-split,
  Distinct-split, All-imp,
}
use transfer_server.Timestamp.{Timestamp, how_much_time, valid, invalid}
use transfer_server.Timer.Set.{Sorted, addresses, Due, Later, split_lem, is_later-All}
use transfer_server.Timer.Inv.{Live, Held, Inv, armed-Inv}
use transfer_server.Timer.Callbacks.{scheduled, callbacks, requests, run_expired-AddedAll}
use transfer_server.Timer.Reset.{renewed, left_over, Settled, reset_entries-Reset}
use transfer_server.Timer.{
  Entry, Timer, TimerQueue, Request, uintptr_max, split_at_bound, get_expired, run_expired, reset,
  reset_entries, next_expire, reset_timerfd, handle_read,
}

-- The entries that have expired at `now`, and the others.
abbrev pub due : TimerQueue → Timestamp → List Entry
due q now = (split_at_bound (now, uintptr_max) q.timers).0

abbrev pub rest : TimerQueue → Timestamp → List Entry
rest q now = (split_at_bound (now, uintptr_max) q.timers).1

module _ (q : TimerQueue) (now : Timestamp) (i : Inv [] q) where
  parted :
      (q.timers ≡ (due q now) ++ (rest q now))
      × All (Due now) (due q now)
      × All (Later now) (rest q now)
      × Sorted (rest q now)
  parted = split_lem now q.timers i.sorted (
      All-imp (λ p. p < q.next) (λ p. p < uintptr_max) (addresses q.timers)
        (λ p h. omega (arith, i.room)) i.below)

  addresses_parted : addresses q.timers ≡ addresses (due q now) ++ addresses (rest q now)
  addresses_parted = ap addresses parted.0 ∙ map-append _ (due q now) (rest q now)

  Live-Held : (es : List Entry) → All (Live q.heap) es → All (Held q.heap) (addresses es)
  Live-Held [] a = tt
  Live-Held (x ∷ es) ((t, e, r), a) = ((t, e), Live-Held es a)

  -- Where the invariant holds, `getExpired` passes its assertion and takes out exactly the entries
  -- that are due; the others are still to come, and the invariant holds with the timers taken out
  -- held.
  pub get_expired-Inv :
      (get_expired q now ≡ ok ((due q now), record q { timers = (rest q now) }))
      × (q.timers ≡ (due q now) ++ (rest q now))
      × All (Due now) (due q now)
      × All (Later now) (rest q now)
      × Inv (addresses (due q now)) (record q { timers = (rest q now) })
  unfolding get_expired
  get_expired-Inv =
      let (e, d, l, s) = parted in
      let live =
        All-split (Live q.heap) (due q now) (rest q now) (subst (All (Live q.heap)) e i.live) in
      let dist =
        Distinct-split (addresses (due q now)) (addresses (rest q now))
          (subst Distinct addresses_parted i.distinct) in
      let below =
        All-split (λ p. p < q.next) (addresses (due q now)) (addresses (rest q now))
          (subst (All (λ p. p < q.next)) addresses_parted i.below) in
      (
        ground (arith, is_later-All now (rest q now) l),
        e,
        d,
        l,
        record {
          sorted = s;
          live = live.1;
          held_live = Live-Held (due q now) live.0;
          distinct = dist.1;
          held_distinct = dist.0;
          apart = dist.2;
          below = below.1;
          held_below = below.0;
          room = i.room;
        },
      )

-- The time of the first entry, or the invalid time.
abbrev pub first_time : List Entry → Timestamp
first_time [] = invalid
first_time ((t, p) ∷ es) = t

next_expire-first :
    (q : TimerQueue) (es : List Entry)
    → All (Live q.heap) es
    → next_expire q es ≡ ok (first_time es)
unfolding next_expire
next_expire-first q [] l = refl
next_expire-first q ((t, p) ∷ es) l = ground arith

-- What a call of `handleRead` at `now` does: the callbacks of the due timers run, in their order; the
-- set then holds the timers not due yet, those that the callbacks added, and the repeating ones under
-- their new time; each due timer is renewed or deleted; the timerfd is armed for the first timer.
pub record Handled (react : ℕ → List Request) (q : TimerQueue) (now clock : Timestamp)
    (out : List ℕ × TimerQueue) : Type 0 where
  pub ran : out.0 ≡ callbacks q.heap (due q now)
  pub inv : Inv [] out.1
  pub timers : Perm out.1.timers (
      renewed q.heap (due q now) now
      ++ (scheduled q.next (requests react (callbacks q.heap (due q now))) ++ rest q now))
  pub settled : All (Settled q.heap out.1.heap now) (due q now)
  pub armed :
      (valid (first_time out.1.timers) ≡ false)
      ⊎ (out.1.armed ≡ some (clock, how_much_time (first_time out.1.timers) clock))

reset-eq :
    (q q' : TimerQueue) (es : List Entry) (now clock : Timestamp)
    → reset_entries q es now ≡ ok q'
    → Inv [] q'
    → reset q es now clock
      ≡ ok (
          if valid (first_time q'.timers)
          then reset_timerfd q' (first_time q'.timers) clock
          else q')
unfolding reset
reset-eq q q' es now clock e i = ground (arith, next_expire-first q' q'.timers i.live)

renewed-heap :
    (n : ℕ) (heap heap' : List (ℕ × Timer)) (es : List Entry) (now : Timestamp)
    → ((c : ℕ) → c < n → find c heap' ≡ find c heap)
    → All (λ c. c < n) (addresses es)
    → renewed heap' es now ≡ renewed heap es now
renewed-heap n heap heap' [] now h a = refl
renewed-heap n heap heap' ((t, p) ∷ es) now h a =
    rw (h p a.0, renewed-heap n heap heap' es now h a.1) refl

Settled-heap :
    (n : ℕ) (heap heap' after : List (ℕ × Timer)) (es : List Entry) (now : Timestamp)
    → ((c : ℕ) → c < n → find c heap' ≡ find c heap)
    → All (λ c. c < n) (addresses es)
    → All (Settled heap' after now) es
    → All (Settled heap after now) es
Settled-heap n heap heap' after [] now h a s = tt
Settled-heap n heap heap' after ((t, p) ∷ es) now h a s =
    (s.0 ∙ ap (λ o. left_over o now) (h p a.0), Settled-heap n heap heap' after es now h a.1 s.1)

-- Arming the timerfd is all that is left to do.
Handled-armed :
    (react : ℕ → List Request) (q q' : TimerQueue) (now clock : Timestamp)
    → Inv [] q'
    → Perm q'.timers (
        renewed q.heap (due q now) now
        ++ (scheduled q.next (requests react (callbacks q.heap (due q now))) ++ rest q now))
    → All (Settled q.heap q'.heap now) (due q now)
    → Handled react q now clock (
      callbacks q.heap (due q now),
      if valid (first_time q'.timers) then reset_timerfd q' (first_time q'.timers) clock else q',
    )
unfolding reset_timerfd
Handled-armed react q q' now clock i p s = elim (Bool-cases (valid (first_time q'.timers))) [
  | inl v ↦ rw v (record {
    ran = refl;
    inv = armed-Inv [] q' (first_time q'.timers) clock i;
    timers = p;
    settled = s;
    armed = inr refl;
  })
  | inr v ↦ rw v (record { ran = refl; inv = i; timers = p; settled = s; armed = inl v })
]

handle_read-steps :
    (react : ℕ → List Request) (q q₂ q₃ : TimerQueue) (now clock : Timestamp) (es : List Entry)
    (cbs : List ℕ) {q₁ : TimerQueue}
    → get_expired q now ≡ ok (es, q₁)
    → run_expired react q₁ es clock ≡ ok (cbs, q₂)
    → reset_entries q₂ es now ≡ ok q₃
    → Inv [] q₃
    → handle_read react q now clock
      ≡ ok (
        cbs,
        if valid (first_time q₃.timers) then reset_timerfd q₃ (first_time q₃.timers) clock else q₃,
      )
unfolding handle_read
handle_read-steps react q q₂ q₃ now clock es cbs {q₁} e e₂ e₃ i =
    ground (arith, reset-eq q₂ q₃ es now clock e₃ i)

-- On a queue whose invariant holds `handleRead` passes every assertion and does just what `Handled`
-- says, if there are addresses left for the timers that the callbacks add.
pub handle_read-Handled :
    (react : ℕ → List Request) (q : TimerQueue) (now clock : Timestamp)
    → Inv [] q
    → q.next + length (requests react (callbacks q.heap (due q now))) ≤ uintptr_max
    → (out : List ℕ × TimerQueue) × (handle_read react q now clock ≡ ok out)
      × Handled react q now clock out
handle_read-Handled react q now clock i room =
    let (e, _, _, _, i₁) = get_expired-Inv q now i in
    let (q₂, e₂, a) =
      run_expired-AddedAll react _ (due q now) (record q { timers = rest q now }) clock i₁
        i₁.held_live i₁.held_below room in
    let (q₃, e₃, r) = reset_entries-Reset (due q now) q₂ now a.inv in
    (
      _,
      handle_read-steps react q q₂ q₃ now clock _ _ e e₂ e₃ r.inv,
      Handled-armed react q q₃ now clock r.inv
          (Perm.trans r.timers (
            subst (λ l. Perm (renewed q₂.heap (due q now) now ++ q₂.timers) (l ++ after))
              (renewed-heap q.next q.heap q₂.heap (due q now) now a.kept i₁.held_below)
              (Perm.append_left (renewed q₂.heap (due q now) now) a.timers)))
          (Settled-heap q.next q.heap q₂.heap q₃.heap (due q now) now a.kept i₁.held_below
            r.settled),
    )
  where
    after : List Entry
    after = scheduled q.next (requests react (callbacks q.heap (due q now))) ++ rest q now
