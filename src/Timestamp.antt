-- ===== src/Timestamp.antt =====
-- include/Timestamp.h, src/Timestamp.cpp, and `howMuchTimeFromNow` of src/TimerQueue.cpp: instants
-- as signed microseconds since the epoch. The 64-bit range of the count (some 290,000 years) is not
-- modelled. Of a `double` of seconds the code uses two things, which `Interval` holds.
use transfer_server.Prelude.{
  ℕ, ◌+◌, ◌*◌, ◌/◌, ◌%◌, ◌≤◌, ◌<◌, ◌≡◌, ◌⊎◌, Bool, ◌==◌, if◌then◌else◌, arith,
}
use transfer_server.Prelude.Int.{ℤ, pos, negsuc, pos_part, neg_part, ltb_ℤ, ◌+ℤ◌, ◌-ℤ◌, ◌≤ℤ◌, sub_ℕ}

pub record Timestamp : Type 0 where
  pub micros : ℤ

-- A `double` of seconds: whether it is above 0, and `static_cast<int64_t>(seconds * 1000000)`.
pub record Interval : Type 0 where
  pub positive : Bool
  pub delta : ℤ

abbrev pub micros_per_second : ℕ
micros_per_second = 1000 * 1000

abbrev pub at : ℤ → Timestamp
at n = record { micros = n }

-- The default constructor, and `Timestamp::invalid()`.
abbrev pub invalid : Timestamp
invalid = at (pos 0)

abbrev pub valid : Timestamp → Bool
valid t = ltb_ℤ (pos 0) t.micros

abbrev pub before : Timestamp → Timestamp → Bool
before a b = ltb_ℤ a.micros b.micros

abbrev pub same_time : Timestamp → Timestamp → Bool
same_time a b = pos_part a.micros + neg_part b.micros == pos_part b.micros + neg_part a.micros

-- `Timestamp::now()` from what `gettimeofday` gives.
pub from_timeval : ℕ → ℕ → Timestamp
from_timeval sec usec = at (pos (sec * micros_per_second + usec))

-- `static_cast<time_t>(microSecondsSinceEpoch_ / kMicroSecondsPerSecond)`, which rounds towards 0.
pub seconds_since_epoch : Timestamp → ℤ
seconds_since_epoch t = elim t.micros [
  | pos n ↦ pos (n / micros_per_second)
  | negsuc n ↦ sub_ℕ 0 ((n + 1) / micros_per_second)
]

pub swap : Timestamp → Timestamp → Timestamp × Timestamp
swap a b = (at b.micros, at a.micros)

unfoldable pub add_time : Timestamp → Interval → Timestamp
unfolding ◌+ℤ◌
add_time t i = at (t.micros +ℤ i.delta)

-- `struct timespec`
pub record Timespec : Type 0 where
  pub sec : ℕ
  pub nsec : ℕ

abbrev split_micros : ℕ → Timespec
split_micros n = record { sec = n / micros_per_second; nsec = n % micros_per_second * 1000 }

-- `howMuchTimeFromNow(when)` at the time `now`.
pub how_much_time : Timestamp → Timestamp → Timespec
unfolding ◌-ℤ◌
how_much_time when now =
    let micros = when.micros -ℤ now.micros in
    split_micros (if ltb_ℤ micros (pos 100) then 100 else pos_part micros)

abbrev pub micros_of : Timespec → ℕ
micros_of ts = ts.sec * micros_per_second + ts.nsec / 1000

-- The time to wait is well formed for `timerfd_settime` and not 0, is at least 100 microseconds, and
-- otherwise ends exactly at `when`; 100 microseconds are waited only where `when` is no later.
pub how_much_time_lem :
    (when now : Timestamp)
    → let ts = how_much_time when now in
      (ts.nsec < 1000 * 1000 * 1000)
      × (100 ≤ micros_of ts)
      × ((micros_of ts ≡ 100) × (when.micros ≤ℤ now.micros +ℤ pos 100)
          ⊎ (now.micros +ℤ pos (micros_of ts) ≡ when.micros))
unfolding how_much_time ◌+ℤ◌ ◌-ℤ◌
how_much_time_lem when now = ground arith
