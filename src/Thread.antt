-- ===== src/Thread.antt =====
-- include/Thread.h, src/Thread.cpp, include/Atomic.h, `waitForSeconds` of src/Condition.cpp and
-- `isMainThread`: a thread of pthread with its start and its end, and the count of threads. What
-- `pthread_create` and the clock answer are arguments. A failure is only logged (Logging). The number
-- and the name that the log shows are in Logging.
pub mod Joined
use transfer_server.Prelude.{
  ℕ, ◌+◌, ◌-◌, ◌^◌, Bool, true, false, not, ◌&&◌, List, [], ◌∷◌, Option, none, some, Checked, ok,
  abort, assert, ◌>>=◌, ◌>>◌, if◌then◌else◌, ◌==◌,
}
use transfer_server.Prelude.Int.{ℤ, pos, negsuc, ◌+ℤ◌, ◌-ℤ◌, ltb_ℤ}

-- An `AtomicInt32`: the least and the greatest value, and the number that the hardware wraps by.
abbrev pub least : ℤ
least = negsuc (2 ^ 31 - 1)

abbrev pub greatest : ℤ
greatest = pos (2 ^ 31 - 1)

abbrev pub wrap : ℤ → ℤ
wrap a =
    if ltb_ℤ greatest a then a -ℤ pos (2 ^ 32) else (if ltb_ℤ a least then a +ℤ pos (2 ^ 32) else a)

-- `getAndAdd(x)`: the old value, and the new one; `__sync_fetch_and_add` wraps.
unfoldable pub get_and_add : ℤ → ℤ → ℤ × ℤ
get_and_add x value = (value, wrap (value +ℤ x))

-- `addAndGet(x)`: the sum of the old value and `x` is one of `int`, which must not overflow.
unfoldable pub add_and_get : ℤ → ℤ → Checked (ℤ × ℤ)
unfolding get_and_add
add_and_get x value = do
  let (old, new) = get_and_add x value
  assert (not (ltb_ℤ greatest (old +ℤ x)) && not (ltb_ℤ (old +ℤ x) least))
  ok (old +ℤ x, new)

-- `incrementAndGet()` and `decrementAndGet()`
abbrev pub increment_and_get : ℤ → Checked (ℤ × ℤ)
increment_and_get = add_and_get (pos 1)

abbrev pub decrement_and_get : ℤ → Checked (ℤ × ℤ)
decrement_and_get = add_and_get (negsuc 0)

-- `getAndSet(newValue)`
abbrev pub get_and_set : ℤ → ℤ → ℤ × ℤ
get_and_set new value = (value, new)

-- `thread_id` is what pthread_create has written to `threadId_`; `none` is the 0 of the constructor.
pub record Thread : Type 0 where
  pub started : Bool
  pub thread_id : Option ℕ
  pub tid : ℕ
  pub name : List ℕ

-- `Thread(func, name)`, with `numCreated_`.
unfoldable pub create : List ℕ → ℤ → Checked (Thread × ℤ)
unfolding add_and_get
create name num_created = do
  r ← increment_and_get num_created
  ok (record { started = false; thread_id = none; tid = 0; name = name }, r.1)

-- What `pthread_create` answers.
pub data CreateOutcome : Type 0 where
  created : ℕ → CreateOutcome
  refused : ℕ → CreateOutcome

-- `start()`, and whether a failure is logged.
unfoldable pub start : CreateOutcome → Thread → Checked (Thread × Bool)
start (created id) t =
    assert (not t.started) >> ok (record t { started = true; thread_id = some id }, false)
start (refused errno) t = assert (not t.started) >> ok (record t { started = true }, true)

-- `join()`: the thread that `pthread_join` is asked to wait for, which is none if there is none.
unfoldable pub join : Thread → Checked (Option ℕ)
join t = assert t.started >> ok t.thread_id

-- `runInThread()`: the members, and what `t_threadName` is for `func_` and after it.
abbrev pub run_in_thread : ℕ → Thread → Thread × List (List ℕ)
run_in_thread tid t = (
  record t { tid = tid },
  t.name ∷ (b'f' ∷ b'i' ∷ b'n' ∷ b'i' ∷ b's' ∷ b'h' ∷ b'e' ∷ b'd' ∷ []) ∷ [],
)

-- `isMainThread()`, for what `getpid` gives.
abbrev pub is_main_thread : ℕ → ℕ → Bool
is_main_thread tid pid = tid == pid

-- `waitForSeconds(seconds)` at the time `now`: the moment up to which it waits, and whether
-- `pthread_cond_timedwait` answered ETIMEDOUT.
abbrev pub wait_for_seconds : ℕ → ℕ → ℕ → ℕ × Bool
wait_for_seconds seconds now answer = (now + seconds, answer == 110)

-- The calls that the owner of a thread makes.
pub data Call : Type 0 where
  starts : CreateOutcome → Call
  joins : Call

-- The threads that were waited for, in their order.
unfoldable pub run : List Call → Thread → Checked (List (Option ℕ) × Thread)
unfolding start join
run [] t = ok ([], t)
run (starts o ∷ ks) t = start o t >>= λ r. run ks r.0
run (joins ∷ ks) t = join t >>= λ id. run ks t >>= λ r. ok (id ∷ r.0, r.1)
