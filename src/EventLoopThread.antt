-- ===== src/EventLoopThread.antt =====
-- include/EventLoopThread.h, src/EventLoopThread.cpp, with include/Condition.h: `startLoop` in one thread
-- and `threadFunc` in the one that it starts. What happens under the mutex is one step; a wait on the
-- condition lets go of the mutex, and ends with a notification or without reason. `loop_` is NULL or
-- the address of the loop on the stack of the new thread.
pub mod Starting
pub mod Ending
use transfer_server.Prelude.{ℕ, ◌≡◌, Bool, true, false}

-- Where the thread stands that calls `startLoop`.
pub data Caller : Type 0 where
  outside : Caller
  checking : Caller
  asleep : Caller
  returned : Caller

-- Where the new thread stands.
pub data Worker : Type 0 where
  unborn : Worker
  constructing : Worker
  looping : Worker
  finished : Worker

pub record EventLoopThread : Type 0 where
  pub started : Bool
  pub has_loop : Bool
  pub caller : Caller
  pub worker : Worker

abbrev pub new_event_loop_thread : EventLoopThread
new_event_loop_thread = record {
  started = false;
  has_loop = false;
  caller = outside;
  worker = unborn;
}

-- `cond_.notify()`
abbrev pub notify : Caller → Caller
notify asleep = checking
notify c = c

-- A step; only `Step true` has the wake-ups without reason.
pub data Step : Bool → EventLoopThread → EventLoopThread → Type 0 where
  -- `assert(!thread_.started())` and `thread_.start()`
  start_loop :
      (spurious : Bool) (s : EventLoopThread)
      → s.caller ≡ outside
      → s.started ≡ false
      → Step spurious s (record s { started = true; caller = checking; worker = constructing })
  -- `while (loop_ == NULL) cond_.wait();`
  wait :
      (spurious : Bool) (s : EventLoopThread)
      → s.caller ≡ checking
      → s.has_loop ≡ false
      → Step spurious s (record s { caller = asleep })
  -- The condition wakes without a notification.
  wake : (s : EventLoopThread) → s.caller ≡ asleep → Step true s (record s { caller = checking })
  give_back :
      (spurious : Bool) (s : EventLoopThread)
      → s.caller ≡ checking
      → s.has_loop ≡ true
      → Step spurious s (record s { caller = returned })
  -- `loop_ = &loop; cond_.notify();`
  publish :
      (spurious : Bool) (s : EventLoopThread)
      → s.worker ≡ constructing
      → Step spurious s (record s { has_loop = true; caller = notify s.caller; worker = looping })
  -- `loop.loop()` ends; `loop_` stays as it is.
  finish :
      (spurious : Bool) (s : EventLoopThread)
      → s.worker ≡ looping
      → Step spurious s (record s { worker = finished })

pub data Steps : Bool → ℕ → EventLoopThread → EventLoopThread → Type 0 where
  stop : (spurious : Bool) (s : EventLoopThread) → Steps spurious 0 s s
  next :
      (spurious : Bool) (n : ℕ) (s t u : EventLoopThread)
      → Step spurious s t
      → Steps spurious n t u
      → Steps spurious (ℕ.suc n) s u
