-- ===== src/Tests/Threads.antt =====
-- The start of a loop's thread at a concrete interleaving.
use transfer_server.CountDownLatch
use transfer_server.CountDownLatch.Waiting.{InTime, run-InTime}
use transfer_server.Prelude.{All, List, [], ◌∷◌, ℕ, ◌≤◌, ◌≡◌, ◌⊎◌, refl, true, false}
use transfer_server.EventLoopThread.{
  EventLoopThread, new_event_loop_thread, asleep, checking, returned, constructing, looping, Step,
  next, start_loop, wait, publish,
}
use transfer_server.EventLoopThread
use transfer_server.EventLoopThread.Ending
use transfer_server.EventLoopThread.Ending.{
  entering, inside, joining, gone, Ending, published, ask_to_quit, enter_loop, enter,
}
use transfer_server.EventLoopThread.Ending.Returns.{destroy-returns}
use transfer_server.EventLoopThread.Starting.{start_loop-returns}

-- The caller sleeps while the new thread makes its loop.
abbrev sleeping : EventLoopThread
sleeping = record { started = true; has_loop = false; caller = asleep; worker = constructing }

abbrev called : EventLoopThread
called = record { started = true; has_loop = false; caller = checking; worker = constructing }

-- The thread makes its loop known while the caller sleeps.
abbrev notified : EventLoopThread
notified = record { started = true; has_loop = true; caller = checking; worker = looping }

start_loop-returns_example :
    (1 ≤ 5)
    × (((checking ≡ returned) × (true ≡ true)) ⊎ ((u : EventLoopThread) × Step false notified u))
start_loop-returns_example =
    start_loop-returns 2 1 sleeping notified
      (next true 1 new_event_loop_thread called sleeping
        (start_loop true new_event_loop_thread refl refl)
        (next true 0 called sleeping sleeping (wait true called refl refl)
          (EventLoopThread.stop true sleeping)))
      refl
      (next false 0 sleeping notified notified (publish false sleeping refl)
        (EventLoopThread.stop false notified))

-- The destructor comes before the loop begins, and the loop begins then.
abbrev forgotten : Ending
forgotten = enter_loop (ask_to_quit published)

destroy-returns_example :
    ((entering ≡ entering) × (joining ≡ joining))
    ⊎ ((entering ≡ inside)
        × ((k : ℕ) × (u : Ending) × (k ≤ 2) × Ending.Steps k forgotten u × (u.destructor ≡ gone)))
destroy-returns_example = destroy-returns 0 1 published forgotten (Ending.stop published) refl (
    Ending.next 0 (ask_to_quit published) forgotten forgotten (enter (ask_to_quit published) refl)
      (Ending.stop forgotten))

-- One thread sleeps, two counts, and another thread comes.
abbrev latched : List CountDownLatch.Op
latched =
    CountDownLatch.calls
    ∷ CountDownLatch.goes_on 0
    ∷ CountDownLatch.counts
    ∷ CountDownLatch.counts
    ∷ CountDownLatch.calls
    ∷ CountDownLatch.goes_on 1
    ∷ []

run-InTime_example : All (InTime 2 2) (CountDownLatch.run latched (CountDownLatch.create 2)).waiters
run-InTime_example = run-InTime 2 latched
