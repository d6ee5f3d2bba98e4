-- ===== src/Timer.antt =====
-- include/Timer.h, src/Timer.cpp, include/TimerId.h, include/TimerQueue.h and src/TimerQueue.cpp:
-- the timers of an event loop. `std::set<Entry>` is a list in the order of its entries, a `Timer*`
-- is an address in a heap of timers, `new` takes the next address. What a callback does to the queue
-- it runs under is the list of timers that it adds (`react`); the clock is an argument.
pub mod Set
pub mod Inv
pub mod Expiry
pub mod Callbacks
pub mod Handle
pub mod Reset
use transfer_server.Prelude.{
  ℕ, ◌+◌, ◌-◌, ◌^◌, Bool, true, false, not, ◌&&◌, ◌||◌, List, [], ◌∷◌, ◌++◌, Option, none, some,
  Checked, ok, abort, assert, ◌>>=◌, ◌>>◌, if◌then◌else◌, ltb, find, assign, erase, nat_eq,
}
use transfer_server.Timestamp.{
  Timestamp, Interval, Timespec, invalid, valid, before, add_time, how_much_time,
}

pub record Timer : Type 0 where
  pub callback : ℕ
  pub expiration : Timestamp
  pub interval : Interval
  pub repeats : Bool

pub new_timer : ℕ → Timestamp → Interval → Timer
new_timer cb when interval = record {
  callback = cb;
  expiration = when;
  interval = interval;
  repeats = interval.positive;
}

pub restart : Timer → Timestamp → Timer
restart t now =
    if t.repeats
    then record t { expiration = add_time now t.interval }
    else record t { expiration = invalid }

abbrev pub Entry : Type 0
Entry = Timestamp × ℕ

-- `operator<` of `std::pair`.
abbrev pub entry_lt : Entry → Entry → Bool
entry_lt (t, p) (u, q) = before t u || not (before u t) && ltb p q

-- `UINTPTR_MAX`
abbrev pub uintptr_max : ℕ
uintptr_max = 2 ^ 64 - 1

-- `timers_.insert(e)`: the set, and whether `e` was new.
pub set_insert : Entry → List Entry → List Entry × Bool
set_insert e [] = (e ∷ [], true)
set_insert e (x ∷ xs) =
    let (ys, fresh) = set_insert e xs in
    if entry_lt e x
    then (e ∷ x ∷ xs, true)
    else if entry_lt x e
    then (x ∷ ys, fresh)
    else (x ∷ xs, false)

-- The entries before `timers_.lower_bound(e)`, and those from there on.
unfoldable pub split_at_bound : Entry → List Entry → List Entry × List Entry
split_at_bound e [] = ([], [])
split_at_bound e (x ∷ xs) =
    let (us, vs) = split_at_bound e xs in if entry_lt x e then (x ∷ us, vs) else ([], x ∷ xs)

pub record TimerQueue : Type 0 where
  pub heap : List (ℕ × Timer)
  pub next : ℕ
  pub timers : List Entry
  -- The last `timerfd_settime`: when it was called, and the relative time given.
  pub armed : Option (Timestamp × Timespec)

pub reset_timerfd : TimerQueue → Timestamp → Timestamp → TimerQueue
reset_timerfd q expiration clock = record q { armed = some (clock, how_much_time expiration clock) }

abbrev pub is_earliest : Timestamp → List Entry → Bool
is_earliest when [] = true
is_earliest when ((t, p) ∷ rest) = before when t

-- `insert(timer)`, where `timer` expires at `when`.
pub insert : TimerQueue → ℕ → Timestamp → Checked (Bool × TimerQueue)
unfolding set_insert
insert q p when = do
  let earliest_changed = is_earliest when q.timers
  let r = set_insert (when, p) q.timers
  assert r.1
  ok (earliest_changed, record q { timers = r.0 })

pub add_timer_in_loop : TimerQueue → ℕ → Timestamp → Checked TimerQueue
unfolding insert reset_timerfd
add_timer_in_loop q p clock = elim (find p q.heap) [
  | none ↦ abort
  | some timer ↦ insert q p timer.expiration >>= λ r.
      ok (if r.0 then reset_timerfd r.1 timer.expiration clock else r.1)
]

-- `addTimer`, called in the loop thread: `runInLoop` makes the call at once. The address is the id.
pub add_timer : TimerQueue → ℕ → Timestamp → Interval → Timestamp → Checked (ℕ × TimerQueue)
unfolding add_timer_in_loop new_timer
add_timer q cb when interval clock =
    add_timer_in_loop
      (record q { heap = assign q.next (new_timer cb when interval) q.heap; next = q.next + 1 })
      q.next clock
    >>= λ q'. ok (q.next, q')

-- `it == timers_.end() || now < it->first`
abbrev pub is_later : Timestamp → List Entry → Bool
is_later now [] = true
is_later now ((t, p) ∷ rest) = before now t

-- The entries that have expired at `now`, and the queue without them.
pub get_expired : TimerQueue → Timestamp → Checked (List Entry × TimerQueue)
unfolding split_at_bound
get_expired q now = do
  let r = split_at_bound (now, uintptr_max) q.timers
  assert (is_later now r.1)
  ok (r.0, record q { timers = r.1 })

-- One round of the loop of `reset`, on the timer at `p`.
pub reset_timer : TimerQueue → ℕ → Timestamp → Option Timer → Checked TimerQueue
unfolding insert restart
reset_timer q p now none = abort
reset_timer q p now (some timer) =
    let t = restart timer now in
    if timer.repeats
    then insert (record q { heap = assign p t q.heap }) p t.expiration >>= (λ r. ok r.1)
    else ok (record q { heap = erase p q.heap })

-- The loop of `reset` over the expired entries.
pub reset_entries : TimerQueue → List Entry → Timestamp → Checked TimerQueue
unfolding reset_timer
reset_entries q [] now = ok q
reset_entries q ((t, p) ∷ rest) now =
    reset_timer q p now (find p q.heap) >>= λ q'. reset_entries q' rest now

-- `timers_.begin()->second->expiration()`, if there is a timer.
pub next_expire : TimerQueue → List Entry → Checked Timestamp
next_expire q [] = ok invalid
next_expire q ((t, p) ∷ rest) = elim (find p q.heap) [
  | some timer ↦ ok timer.expiration
  | none ↦ abort
]

pub reset : TimerQueue → List Entry → Timestamp → Timestamp → Checked TimerQueue
unfolding reset_entries reset_timerfd next_expire
reset q expired now clock = do
  q' ← reset_entries q expired now
  when ← next_expire q' q'.timers
  ok (if valid when then reset_timerfd q' when clock else q')

-- A timer that a callback adds: its callback, its time and its interval.
abbrev pub Request : Type 0
Request = ℕ × Timestamp × Interval

pub add_timers : TimerQueue → List Request → Timestamp → Checked TimerQueue
unfolding add_timer
add_timers q [] clock = ok q
add_timers q ((cb, when, interval) ∷ rest) clock =
    add_timer q cb when interval clock >>= λ r. add_timers r.1 rest clock

-- `it->second->run()` for each expired entry: the callbacks run so far, and the queue.
pub run_expired :
    (ℕ → List Request) → TimerQueue → List Entry → Timestamp → Checked (List ℕ × TimerQueue)
unfolding add_timers
run_expired react q [] clock = ok ([], q)
run_expired react q ((t, p) ∷ rest) clock = elim (find p q.heap) [
  | none ↦ abort
  | some timer ↦ add_timers q (react timer.callback) clock >>= λ q'.
      run_expired react q' rest clock >>= λ r. ok (timer.callback ∷ r.0, r.1)
]

-- `handleRead()` when the timerfd is readable.
pub handle_read :
    (ℕ → List Request) → TimerQueue → Timestamp → Timestamp → Checked (List ℕ × TimerQueue)
unfolding get_expired run_expired reset
handle_read react q now clock = do
  e ← get_expired q now
  r ← run_expired react e.1 e.0 clock
  q' ← reset r.1 e.0 now clock
  ok (r.0, q')
