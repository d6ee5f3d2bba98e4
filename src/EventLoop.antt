-- ===== src/EventLoop.antt =====
-- include/EventLoop.h and src/EventLoop.cpp: one loop per thread. A functor is its name and the
-- calls that it makes of its own loop, in their order; running it appends its name to the output. A
-- caller's thread enters as a Boolean: whether it is the loop's thread. `eventfd` is the counter of
-- the descriptor that wakes the loop up; what poll(2) finds is an argument of `loop`. A failed
-- `assertInLoopThread` does not stop the program: `LOG_FATAL` writes a line, and the call of `abort`
-- behind it is commented out (src/Logging.cpp), so the check leaves no trace here.
pub mod Functors
pub mod Wakeup
pub mod Rounds
pub mod Created
pub mod Dispatch
use transfer_server.Prelude.{
  ℕ, ◌+◌, ◌-◌, ◌^◌, Bool, true, false, not, ◌&&◌, ◌||◌, List, [], ◌∷◌, ◌++◌, Checked, ok, abort,
  assert, ◌>>=◌, ◌>>◌, if◌then◌else◌, ltb,
}
use transfer_server.Prelude.Int.{ℤ, pos}
use transfer_server.Timestamp.{Timestamp, Interval, add_time}
use transfer_server.Timer.{TimerQueue, add_timer}
use transfer_server.Poller.{Poller, update_channel, remove_channel}

mutual
  pub data Functor : Type 0 where
    functor : ℕ → Actions → Functor

  pub data Actions : Type 0 where
    done : Actions
    queue run_now : Functor → Actions → Actions
    stop : Actions → Actions

pub record EventLoop : Type 0 where
  pub looping : Bool
  pub quitting : Bool
  pub calling : Bool
  pub poller : Poller
  pub timer_queue : TimerQueue
  pub eventfd : ℕ
  pub pending : List Functor

-- The counter of an eventfd stays below this; a write that would pass it fails with EAGAIN.
abbrev pub eventfd_max : ℕ
eventfd_max = 2 ^ 64 - 2

-- `wakeup()`: a failed write is only logged.
unfoldable pub wakeup : EventLoop → EventLoop
wakeup l = if ltb l.eventfd eventfd_max then record l { eventfd = l.eventfd + 1 } else l

-- `handleRead()`: the read of an eventfd sets it to 0.
abbrev pub handle_read : EventLoop → EventLoop
handle_read l = record l { eventfd = 0 }

unfoldable pub quit : Bool → EventLoop → EventLoop
quit in_loop l = let l' = record l { quitting = true } in if not in_loop then wakeup l' else l'

-- The two parts of `queueInLoop`: under the mutex, and after it.
abbrev pub push : Functor → EventLoop → EventLoop
push f l = record l { pending = l.pending ++ (f ∷ []) }

unfoldable pub queue_in_loop : Bool → Functor → EventLoop → EventLoop
unfolding wakeup
queue_in_loop in_loop f l = let l' = push f l in if not in_loop || l'.calling then wakeup l' else l'

mutual
  -- `functors[i]()`, in the loop's thread.
  pub run_functor : Functor → EventLoop → List ℕ × EventLoop
  run_functor (functor k actions) l = let r = run_actions actions l in (k ∷ r.0, r.1)

  pub run_actions : Actions → EventLoop → List ℕ × EventLoop
  run_actions done l = ([], l)
  run_actions (queue f rest) l = run_actions rest (queue_in_loop true f l)
  run_actions (run_now f rest) l =
      let r = run_functor f l in let s = run_actions rest r.1 in (r.0 ++ s.0, s.1)
  run_actions (stop rest) l = run_actions rest (quit true l)

pub run_in_loop : Bool → Functor → EventLoop → List ℕ × EventLoop
run_in_loop true f l = run_functor f l
run_in_loop false f l = ([], queue_in_loop false f l)

pub run_functors : List Functor → EventLoop → List ℕ × EventLoop
run_functors [] l = ([], l)
run_functors (f ∷ fs) l =
    let r = run_functor f l in let s = run_functors fs r.1 in (r.0 ++ s.0, s.1)

pub do_pending_functors : EventLoop → List ℕ × EventLoop
unfolding run_functors
do_pending_functors l =
    let r = run_functors l.pending (record l { calling = true; pending = [] }) in
    (r.0, record r.1 { calling = false })

-- What one `poll` finds: whether the eventfd is among the active channels (`handleRead`), and what
-- the callbacks of the others do.
pub record Found : Type 0 where
  pub woken : Bool
  pub handlers : Actions

-- One turn of the while loop.
pub turn : EventLoop → Found → List ℕ × EventLoop
unfolding run_actions do_pending_functors
turn l found =
    let r = run_actions found.handlers (if found.woken then handle_read l else l) in
    let s = do_pending_functors r.1 in (r.0 ++ s.0, s.1)

-- The while loop, as long as there is an answer of `poll` left.
pub turns : EventLoop → List Found → List ℕ × EventLoop
unfolding turn
turns l [] = ([], l)
turns l (found ∷ rest) =
    let r = turn l found in
    let s = turns r.1 rest in
    if l.quitting then ([], record l { looping = false }) else (r.0 ++ s.0, s.1)

pub loop : EventLoop → List Found → Checked (List ℕ × EventLoop)
unfolding turns
loop l founds = do
  assert (not l.looping)
  ok (turns (record l { looping = true; quitting = false }) founds)

-- `updateChannel` and `removeChannel`. The loop owns the channel, as its assertion asks.
pub update_channel_in_loop : EventLoop → ℕ → Checked EventLoop
update_channel_in_loop l addr = update_channel l.poller addr >>= λ p. ok (record l { poller = p })

pub remove_channel_in_loop : EventLoop → ℕ → Checked EventLoop
remove_channel_in_loop l addr = remove_channel l.poller addr >>= λ p. ok (record l { poller = p })

-- `runAt`, `runAfter` and `runEvery` in the loop's thread, at the time `clock`.
pub run_at : EventLoop → Timestamp → ℕ → Timestamp → Checked (ℕ × EventLoop)
run_at l time cb clock =
    add_timer l.timer_queue cb time (record { positive = false; delta = pos 0 }) clock >>= λ r.
    ok (r.0, record l { timer_queue = r.1 })

pub run_after : EventLoop → Interval → ℕ → Timestamp → Checked (ℕ × EventLoop)
unfolding run_at
run_after l delay cb clock = run_at l (add_time clock delay) cb clock

pub run_every : EventLoop → Interval → ℕ → Timestamp → Checked (ℕ × EventLoop)
run_every l interval cb clock =
    add_timer l.timer_queue cb (add_time clock interval) interval clock >>= λ r.
    ok (r.0, record l { timer_queue = r.1 })
