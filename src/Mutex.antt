-- ===== src/Mutex.antt =====
-- include/Mutex.h, with `Condition::wait` of include/Condition.h: any number of threads at one `MutexLock`.
-- A thread is the number that `CurrentThread::tid()` gives it, which is not 0. What pthread_mutex_lock
-- and pthread_cond_wait promise is in the steps: they return when the mutex is free, with the mutex.
pub mod Holder
pub mod Waits
use transfer_server.Prelude.{
  ℕ, ◌<◌, ◌≡◌, Bool, true, Option, none, some, Checked, assert, if◌then◌else◌, ◌==◌,
}

-- Where a thread stands: outside; in `lock()` with the mutex; between `lock()` and `unlock()`; in
-- `unlock()`, still with the mutex; in `wait()`, without it.
pub data Place : Type 0 where
  outside locking holding unlocking waiting : Place

-- `owner` is what pthread keeps in `mutex_`.
pub record MutexLock : Type 0 where
  pub owner : Option ℕ
  pub holder : ℕ
  pub at : ℕ → Place

abbrev pub create : MutexLock
create = record { owner = none; holder = 0; at = λ t. outside }

pub destroy : MutexLock → Checked (Unit {0})
destroy m = assert (m.holder == 0)

unfoldable pub is_locked_by_this_thread : ℕ → MutexLock → Bool
is_locked_by_this_thread t m = m.holder == t

unfoldable pub assert_locked : ℕ → MutexLock → Checked (Unit {0})
unfolding is_locked_by_this_thread
assert_locked t m = assert (is_locked_by_this_thread t m)

abbrev pub move : ℕ → Place → MutexLock → MutexLock
move t p m = record m { at = λ u. if t == u then p else m.at u }

-- `pthread_mutex_lock(&mutex_)` has returned.
abbrev pub acquire : ℕ → MutexLock → MutexLock
acquire t m = move t locking (record m { owner = some t })

-- `holder_ = CurrentThread::tid()`
abbrev pub assign_holder : ℕ → MutexLock → MutexLock
assign_holder t m = move t holding (record m { holder = t })

-- `holder_ = 0`
abbrev pub clear_holder : ℕ → MutexLock → MutexLock
clear_holder t m = move t unlocking (record m { holder = 0 })

-- `pthread_mutex_unlock(&mutex_)`
abbrev pub release : ℕ → MutexLock → MutexLock
release t m = move t outside (record m { owner = none })

-- `pthread_cond_wait` lets go of the mutex.
abbrev pub sleep : ℕ → MutexLock → MutexLock
sleep t m = move t waiting (record m { owner = none })

-- `pthread_cond_wait` has returned.
abbrev pub wake : ℕ → MutexLock → MutexLock
wake t m = move t holding (record m { owner = some t })

-- A step of a thread; `waits` tells whether threads may wait on a condition.
pub data Step (waits : Bool) : MutexLock → MutexLock → Type 0 where
  acquires :
      (m : MutexLock) (t : ℕ)
      → 0 < t
      → m.at t ≡ outside
      → m.owner ≡ none
      → Step waits m (acquire t m)
  assigns : (m : MutexLock) (t : ℕ) → m.at t ≡ locking → Step waits m (assign_holder t m)
  clears : (m : MutexLock) (t : ℕ) → m.at t ≡ holding → Step waits m (clear_holder t m)
  releases : (m : MutexLock) (t : ℕ) → m.at t ≡ unlocking → Step waits m (release t m)
  sleeps : (m : MutexLock) (t : ℕ) → waits ≡ true → m.at t ≡ holding → Step waits m (sleep t m)
  wakes : (m : MutexLock) (t : ℕ) → m.at t ≡ waiting → m.owner ≡ none → Step waits m (wake t m)

pub data Steps (waits : Bool) : MutexLock → MutexLock → Type 0 where
  stop : (m : MutexLock) → Steps waits m m
  next : (m n o : MutexLock) → Steps waits m n → Step waits n o → Steps waits m o
