-- ===== src/CountDownLatch.antt =====
-- include/CountDownLatch.h, with include/Condition.h: threads that wait until a count is used up. What
-- happens under the mutex is one step; a wait on the condition lets go of the mutex, and ends with a
-- broadcast or without reason.
pub mod Waiting
use transfer_server.Prelude.{
  ℕ, zero, suc, List, [], ◌∷◌, ◌++◌, map, if◌then◌else◌, Bool, true, false,
}
use transfer_server.Prelude.Int.{ℤ, pos, negsuc}

-- Where a thread stands in `wait()`: before the test of the count, asleep, or returned.
pub data Waiter : Type 0 where
  checking : Waiter
  asleep : Waiter
  returned : Waiter

pub record CountDownLatch : Type 0 where
  pub count : ℤ
  pub waiters : List Waiter

-- `condition_.notifyAll()`
abbrev pub wake_up : Waiter → Waiter
wake_up asleep = checking
wake_up w = w

-- `--count_`, on a count within the range of `int`.
abbrev pub decrement : ℤ → ℤ
decrement (pos zero) = negsuc zero
decrement (pos (suc n)) = pos n
decrement (negsuc n) = negsuc (suc n)

abbrev pub is_zero : ℤ → Bool
is_zero (pos zero) = true
is_zero _ = false

-- `count_ > 0`
abbrev pub is_positive : ℤ → Bool
is_positive (pos (suc n)) = true
is_positive _ = false

-- `countDown()`
unfoldable pub count_down : CountDownLatch → CountDownLatch
count_down l =
    let count = decrement l.count in
    record { count = count; waiters = if is_zero count then map wake_up l.waiters else l.waiters }

-- A round of the loop of `wait()`.
abbrev pub check : ℤ → Waiter → Waiter
check count checking = if is_positive count then asleep else returned
check count w = w

-- What can happen: a call of `countDown`, a round of the i-th waiter, a wake-up of it without reason, and
-- a call of `wait` by another thread.
pub data Op : Type 0 where
  counts : Op
  goes_on wakes : ℕ → Op
  calls : Op

-- One element of a list changes.
abbrev pub update_at : ℕ → (Waiter → Waiter) → List Waiter → List Waiter
update_at i f [] = []
update_at zero f (w ∷ ws) = f w ∷ ws
update_at (suc i) f (w ∷ ws) = w ∷ update_at i f ws

abbrev pub step : Op → CountDownLatch → CountDownLatch
step counts l = count_down l
step (goes_on i) l = record l { waiters = update_at i (check l.count) l.waiters }
step (wakes i) l = record l { waiters = update_at i wake_up l.waiters }
step calls l = record l { waiters = l.waiters ++ (checking ∷ []) }

abbrev pub run : List Op → CountDownLatch → CountDownLatch
run [] l = l
run (op ∷ ops) l = run ops (step op l)

-- `CountDownLatch(count)`
abbrev pub create : ℕ → CountDownLatch
create count = record { count = pos count; waiters = [] }
