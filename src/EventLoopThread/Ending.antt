-- ===== src/EventLoopThread/Ending.antt =====
-- `~EventLoopThread` in src/EventLoopThread.cpp, with `quit` and the start of `loop` in src/EventLoop.cpp:
-- from the moment at which `startLoop` has its loop. Nobody else calls `quit`. That `quit` wakes
-- `poll` up is in EventLoop/Wakeup.
pub mod Returns
use transfer_server.Prelude.{ℕ, ◌≡◌, ◌≢◌, Bool, true, false}

-- Where the loop's thread stands: before `quit_ = false` in `loop()`, behind it, and at the end.
pub data Stage : Type 0 where
  entering : Stage
  inside : Stage
  ended : Stage

-- Where the thread stands that destroys the object.
pub data Destructor : Type 0 where
  before : Destructor
  joining : Destructor
  gone : Destructor

pub record Ending : Type 0 where
  pub quit : Bool
  pub stage : Stage
  pub destructor : Destructor

-- `loop_ = &loop` is done.
abbrev pub published : Ending
published = record { quit = false; stage = entering; destructor = before }

-- `loop_->quit();`
abbrev pub ask_to_quit : Ending → Ending
ask_to_quit s = record s { quit = true; destructor = joining }

-- `quit_ = false;`
abbrev pub enter_loop : Ending → Ending
enter_loop s = record s { quit = false; stage = inside }

pub data Step : Ending → Ending → Type 0 where
  enter : (s : Ending) → s.stage ≡ entering → Step s (enter_loop s)
  -- `while (!quit_)` ends.
  leave : (s : Ending) → s.stage ≡ inside → s.quit ≡ true → Step s (record s { stage = ended })
  destroy : (s : Ending) → s.destructor ≡ before → s.stage ≢ ended → Step s (ask_to_quit s)
  -- `thread_.join();`
  join :
      (s : Ending)
      → s.destructor ≡ joining
      → s.stage ≡ ended
      → Step s (record s { destructor = gone })

pub data Steps : ℕ → Ending → Ending → Type 0 where
  stop : (s : Ending) → Steps 0 s s
  next : (n : ℕ) (s t u : Ending) → Step s t → Steps n t u → Steps (ℕ.suc n) s u
