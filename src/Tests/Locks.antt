-- ===== src/Tests/Locks.antt =====
-- A lock with two threads.
use transfer_server.Prelude.{ℕ, ◌<◌, ◌≡◌, ◌⊎◌, ◌↔◌, refl, arith, true, false, some, ok, abort}
use transfer_server.Mutex.{
  holding, waiting, MutexLock, create, acquire, assign_holder, destroy, is_locked_by_this_thread,
  assert_locked, acquires, assigns, Steps, stop, next,
}
use transfer_server.Mutex.Holder.{has, marked, holder-Sound, locked_iff-holding}
use transfer_server.Mutex.Waits.{woken, wait-forgets}

-- The thread 7 has locked the mutex.
abbrev locked : MutexLock
locked = assign_holder 7 (acquire 7 create)

abbrev to_locked : Steps false create locked
to_locked =
    next create (acquire 7 create) locked
      (next create create (acquire 7 create) (stop create)
        (acquires create 7 (omega arith) refl refl))
      (assigns (acquire 7 create) 7 refl)

holder-Sound_example :
    ((t u : ℕ) → has (locked.at t) ≡ true → has (locked.at u) ≡ true → t ≡ u)
    × ((t : ℕ)
        → 0 < t
        → is_locked_by_this_thread t locked ≡ true
        → (locked.at t ≡ holding) ⊎ (locked.at t ≡ waiting))
    × (((t : ℕ) → marked (locked.at t) ≡ false) → destroy locked ≡ ok tt)
holder-Sound_example = holder-Sound locked to_locked

locked_iff-holding_example :
    ((is_locked_by_this_thread 7 locked ≡ true) ↔ (locked.at 7 ≡ holding))
    × ((assert_locked 7 locked ≡ ok tt) ↔ (locked.at 7 ≡ holding))
locked_iff-holding_example = locked_iff-holding locked 7 to_locked (omega arith)

wait-forgets_example :
    Steps true locked (woken 7 8 locked)
    × ((woken 7 8 locked).owner ≡ some 7)
    × ((woken 7 8 locked).at 7 ≡ holding)
    × ((woken 7 8 locked).holder ≡ 0)
    × (assert_locked 7 (woken 7 8 locked) ≡ abort)
wait-forgets_example = wait-forgets locked 7 8 refl refl (omega arith) (omega arith)
