-- ===== src/Mutex/Waits.antt =====
-- What a wait on a condition does to `holder_`.
use transfer_server.Prelude.{ℕ, ◌<◌, ◌≡◌, ◌≢◌, refl, true, some, abort, arith}
use transfer_server.Mutex.{
  outside, holding, MutexLock, acquire, assign_holder, clear_holder, release, sleep, wake,
  assert_locked, acquires, assigns, clears, releases, sleeps, wakes, Steps, stop, next,
}

-- The states in which `t` waits, `u` locks and unlocks, and `t` goes on.
abbrev taken : ℕ → ℕ → MutexLock → MutexLock
taken t u m = assign_holder u (acquire u (sleep t m))

abbrev pub woken : ℕ → ℕ → MutexLock → MutexLock
woken t u m = wake t (release u (clear_holder u (taken t u m)))

-- A thread that holds the mutex waits on a condition; another one, outside, locks and unlocks the
-- mutex, as it does to notify; then the first goes on. It has the mutex again, but `holder_` is 0, and
-- `assertLocked` fails in it.
pub wait-forgets :
    (m : MutexLock) (t u : ℕ)
    → m.at t ≡ holding
    → m.at u ≡ outside
    → 0 < t
    → 0 < u
    → let n = woken t u m in
      Steps true m n
      × (n.owner ≡ some t)
      × (n.at t ≡ holding)
      × (n.holder ≡ 0)
      × (assert_locked t n ≡ abort)
unfolding assert_locked
wait-forgets m t u p q pos pos' =
    let apart : t ≢ u = λ e. ground (arith, p, q, e) in
    let m₁ = sleep t m in
    let m₂ = acquire u m₁ in
    let m₃ = assign_holder u m₂ in
    let m₄ = clear_holder u m₃ in
    let m₅ = release u m₄ in
    (
      next m m₅ (wake t m₅)
          (next m m₄ m₅
            (next m m₃ m₄
              (next m m₂ m₃
                (next m m₁ m₂ (next m m m₁ (stop m) (sleeps m t refl p))
                  (acquires m₁ u pos' (ground (arith, q, apart)) refl))
                (assigns m₂ u (ground arith)))
              (clears m₃ u (ground arith)))
            (releases m₄ u (ground arith)))
          (wakes m₅ t (ground (arith, apart)) refl),
      refl,
      ground (arith),
      refl,
      ground (arith),
    )
