-- ===== src/Timer/Expiry.antt =====
-- The timers through a call of `addTimer` and through one of `handleRead`: which stay, which come,
-- which go, and when the timerfd is armed.
use mathlib.Core.List.{Perm}
use transfer_server.Prelude.{
  ℕ, ◌+◌, ◌<◌, ◌≡◌, refl, List, ◌∷◌, some, arith, if◌then◌else◌, Bool-cases, inl, inr, find, assign,
  find-assign, nat_eq, ok,
}
use transfer_server.Timestamp.{Timestamp, Interval, how_much_time}
use transfer_server.Timer.Set.{set_insert-perm, set_insert-fresh}
use transfer_server.Timer.Inv.{Inv, inserted, insert-Inv, allocated, allocated-Inv, armed-Inv}
use transfer_server.Timer.{
  Timer, TimerQueue, uintptr_max, insert, is_earliest, new_timer, add_timer_in_loop, add_timer,
  reset_timerfd,
}

-- The state after `addTimer`, armed anew if the timer is the earliest.
added : TimerQueue → ℕ → Timestamp → Interval → Timestamp → TimerQueue
unfolding reset_timerfd
added q cb when interval clock =
    let q' = inserted (allocated q (new_timer cb when interval)) q.next when in
    if is_earliest when q.timers then reset_timerfd q' when clock else q'

-- What one `addTimer` does: the entry joins the set, the timer is on the heap at a new address, the
-- others stay, and the timerfd is armed for it exactly if it is the earliest.
pub record Added (held : List ℕ) (q : TimerQueue) (cb : ℕ) (when : Timestamp) (interval : Interval)
    (clock : Timestamp) (q' : TimerQueue) : Type 0 where
  pub inv : Inv held q'
  pub joins : Perm q'.timers ((when, q.next) ∷ q.timers)
  pub heap : q'.heap ≡ assign q.next (new_timer cb when interval) q.heap
  pub next : q'.next ≡ q.next + 1
  pub arms :
      q'.armed
      ≡ (if is_earliest when q.timers then some (clock, how_much_time when clock) else q.armed)

module _ (held : List ℕ) (q : TimerQueue) (cb : ℕ) (when : Timestamp) (interval : Interval)
    (clock : Timestamp) (i : Inv held q) (room : q.next < uintptr_max) where
  abbrev timer : Timer
  timer = record {
    callback = cb;
    expiration = when;
    interval = interval;
    repeats = interval.positive;
  }

  timer-eq : new_timer cb when interval ≡ timer
  unfolding new_timer
  timer-eq = refl

  on_heap : find q.next (allocated q timer).heap ≡ some timer
  on_heap = ground (arith, find-assign q.next q.next timer q.heap)

  inserted_lem :
      (insert (allocated q timer) q.next when
        ≡ ok (is_earliest when q.timers, inserted (allocated q timer) q.next when))
      × Inv held (inserted (allocated q timer) q.next when)
  inserted_lem =
      insert-Inv held (allocated q timer) q.next timer (allocated-Inv held q timer i room) on_heap

  add_timer-eq : add_timer q cb when interval clock ≡ ok (q.next, added q cb when interval clock)
  unfolding add_timer add_timer_in_loop added new_timer
  add_timer-eq = ground (arith, inserted_lem.0, on_heap)

  joins : Perm (inserted (allocated q timer) q.next when).timers ((when, q.next) ∷ q.timers)
  joins =
      set_insert-perm (when, q.next) q.timers
        (set_insert-fresh when q.next q.timers (allocated-Inv held q timer i room).apart.0)

  added-Added : Added held q cb when interval clock (added q cb when interval clock)
  unfolding added new_timer
  added-Added = elim (Bool-cases (is_earliest when q.timers)) [
    | inl first ↦ rw first (record {
      inv = armed-Inv held _ when clock inserted_lem.1;
      joins = joins;
      heap = refl;
      next = refl;
      arms = rw first refl;
    })
    | inr behind ↦ rw behind (record {
      inv = inserted_lem.1;
      joins = joins;
      heap = refl;
      next = refl;
      arms = rw behind refl;
    })
  ]

-- Where the invariant holds and an address is left, `addTimer` gives the new address and does what
-- `Added` says: the entry joins the set, the others stay, and the timerfd is armed for it exactly
-- if it is the earliest.
pub add_timer-Added :
    (held : List ℕ) (q : TimerQueue) (cb : ℕ) (when : Timestamp) (interval : Interval)
    (clock : Timestamp)
    → Inv held q
    → q.next < uintptr_max
    → (q' : TimerQueue) × (add_timer q cb when interval clock ≡ ok (q.next, q'))
      × Added held q cb when interval clock q'
add_timer-Added held q cb when interval clock i room = (
  added q cb when interval clock,
  add_timer-eq held q cb when interval clock i room,
  added-Added held q cb when interval clock i room,
)
