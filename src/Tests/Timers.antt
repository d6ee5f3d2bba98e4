-- ===== src/Tests/Timers.antt =====
-- The timers and the poller at concrete inputs.
use transfer_server.Prelude.{
  ℕ, ◌≡◌, refl, true, false, List, [], ◌∷◌, arith, ok, none, if◌then◌else◌, ◌==◌, find,
}
use transfer_server.Prelude.Int.{pos}
use transfer_server.Timestamp.{Timestamp, Interval, at}
use transfer_server.Timer.{Entry, Timer, TimerQueue, Request, split_at_bound, handle_read}
use transfer_server.Timer.Inv.{Inv}
use transfer_server.Timer.Handle.{Handled, handle_read-Handled}

abbrev once : Interval
once = record { positive = false; delta = pos 0 }

abbrev every : Interval
every = record { positive = true; delta = pos 10 }

abbrev timer_at : ℕ → Interval → ℕ → Timer
timer_at when interval cb = record {
  callback = cb;
  expiration = at (pos when);
  interval = interval;
  repeats = interval.positive;
}

abbrev three : List Entry
three = (at (pos 5), 1) ∷ (at (pos 5), 2) ∷ (at (pos 9), 0) ∷ []

-- Three timers, one of which repeats.
abbrev queue : TimerQueue
queue = record {
  heap = (0, timer_at 9 once 70) ∷ (1, timer_at 5 every 71) ∷ (2, timer_at 5 once 72) ∷ [];
  next = 3;
  timers = three;
  armed = none;
}

queue-Inv : Inv [] queue
unfolding find
queue-Inv = record {
  sorted = ((refl, (refl, tt)), ((refl, tt), (tt, tt)));
  live = (
    (timer_at 5 every 71, refl, refl),
    ((timer_at 5 once 72, refl, refl), ((timer_at 9 once 70, refl, refl), tt)),
  );
  held_live = tt;
  distinct = omega arith;
  held_distinct = tt;
  apart = tt;
  below = omega arith;
  held_below = tt;
  room = omega arith;
}

abbrev now_6 : Timestamp
now_6 = at (pos 6)

-- The callback 72 adds a timer.
abbrev react : ℕ → List Request
react cb = if cb == 72 then (90, at (pos 20), once) ∷ [] else []

handle_read-Handled_example :
    (out : List ℕ × TimerQueue) × (handle_read react queue now_6 now_6 ≡ ok out)
    × Handled react queue now_6 now_6 out
unfolding split_at_bound find
handle_read-Handled_example = handle_read-Handled react queue now_6 now_6 queue-Inv (omega arith)
