-- ===== src/AsyncLogging.antt =====
-- include/AsyncLogging.h and src/AsyncLogging.cpp: threads append lines to a buffer, and a thread of
-- the log takes the full buffers and writes them out. A `BufferPtr` is a plain pointer, an address in
-- `heap`, so `std::move` of one copies it and leaves the old one as it is. What happens under the mutex
-- is one step; `output` is what has been given to the log file (LogFile).
pub mod Lines
pub mod Interleave
pub mod Drain
pub mod Aliases
pub mod Whole
use transfer_server.Prelude.{
  ℕ, ◌+◌, Bool, true, false, not, ◌&&◌, List, [], ◌∷◌, ◌++◌, Option, none, some, Checked, ok, abort,
  assert, deref, ◌>>=◌, ◌>>◌, if◌then◌else◌, ltb, ◌==◌, length, take, find, assign, nat_eq,
}
use transfer_server.LogStream.{FixedBuffer, large_buffer, create, avail}
use transfer_server.LogStream

-- The members that the threads share.
pub record AsyncLogging : Type 0 where
  pub heap : List (ℕ × FixedBuffer)
  pub next_address : ℕ
  pub current : ℕ
  pub next_buffer : Option ℕ
  pub buffers : List ℕ

-- `p->append(logline, len)`
pub append_to : ℕ → List ℕ → AsyncLogging → Checked AsyncLogging
append_to p line s = deref (find p s.heap) >>= λ b.
    ok (record s { heap = assign p (LogStream.append b line) s.heap })

-- `new Buffer`
abbrev pub new_buffer : AsyncLogging → AsyncLogging
new_buffer s = record s {
  heap = assign s.next_address (create large_buffer) s.heap;
  next_address = s.next_address + 1;
}

-- The buffer is full: push it and find the next one.
pub overflow : List ℕ → AsyncLogging → Checked AsyncLogging
unfolding append_to
overflow line s =
    let pushed = record s { buffers = s.buffers ++ (s.current ∷ []) } in
    elim s.next_buffer [
      | some p ↦ append_to p line (record pushed { current = p })
      | none ↦
          append_to s.next_address line (record (new_buffer pushed) { current = s.next_address })
    ]

-- `append(logline, len)`
pub append : List ℕ → AsyncLogging → Checked AsyncLogging
unfolding overflow append_to
append line s = deref (find s.current s.heap) >>= λ b.
    if ltb (length line) (avail b) then append_to s.current line s else overflow line s

-- Where the thread of the log stands in its loop.
pub data Phase : Type 0 where
  waiting writing recycling : Phase

-- The members with the local variables of `threadFunc`.
pub record Log : Type 0 where
  pub shared : AsyncLogging
  pub phase : Phase
  pub new_buffer1 : Option ℕ
  pub new_buffer2 : Option ℕ
  pub to_write : List ℕ
  pub output : List ℕ

-- `newBuffer != NULL && newBuffer->length() == 0`
pub is_empty : Option ℕ → List (ℕ × FixedBuffer) → Checked Bool
is_empty none heap = ok false
is_empty (some p) heap = deref (find p heap) >>= λ b. ok (length b.text == 0)

abbrev pub no_buffers : List ℕ → Bool
no_buffers [] = true
no_buffers (p ∷ ps) = false

-- The assertions, and the part under the mutex. How long it waits there is left open.
pub take_buffers : Log → Checked Log
unfolding is_empty
take_buffers l = do
  first ← is_empty l.new_buffer1 l.shared.heap
  assert first
  second ← is_empty l.new_buffer2 l.shared.heap
  assert second
  assert (no_buffers l.to_write)
  current ← deref l.new_buffer1
  let s = l.shared
  let taken = record l {
    phase = writing;
    new_buffer1 = none;
    to_write = s.buffers ++ (s.current ∷ []);
  }
  ok (elim s.next_buffer [
    | some p ↦ record taken { shared = record s { current = current; buffers = [] } }
    | none ↦ record taken {
      shared = record s { current = current; buffers = []; next_buffer = l.new_buffer2 };
      new_buffer2 = none;
    }
  ])

-- The texts of the buffers, in their order.
pub texts : List (ℕ × FixedBuffer) → List ℕ → Checked (List ℕ)
texts heap [] = ok []
texts heap (p ∷ ps) = deref (find p heap) >>= λ b. texts heap ps >>= λ rest. ok (b.text ++ rest)

-- The loop over `buffersToWrite`, and its `resize(2)`.
pub write_buffers : Log → Checked Log
unfolding texts
write_buffers l = do
  assert (not (no_buffers l.to_write))
  out ← texts l.shared.heap l.to_write
  ok (record l { phase = recycling; output = l.output ++ out; to_write = take 2 l.to_write })

-- `back()` and `pop_back()`, for a vector that is not empty.
pub pop_back : ℕ → List ℕ → ℕ × List ℕ
pop_back p [] = (p, [])
pop_back p (q ∷ qs) = let (last, rest) = pop_back q qs in (last, p ∷ rest)

-- `newBuffer = buffersToWrite.back(); pop_back(); newBuffer->reset()`, where it is NULL.
pub refill : Option ℕ → List ℕ → AsyncLogging → Checked (Option ℕ × List ℕ × AsyncLogging)
unfolding pop_back
refill (some p) ps s = ok (some p, ps, s)
refill none [] s = abort
refill none (p ∷ ps) s =
    let (last, rest) = pop_back p ps in
    deref (find last s.heap) >>= λ b.
    ok (some last, rest, record s { heap = assign last (LogStream.reset_buffer b) s.heap })

pub recycle_buffers : Log → Checked Log
unfolding refill
recycle_buffers l = do
  (first, rest, s) ← refill l.new_buffer1 l.to_write l.shared
  (second, rest', s') ← refill l.new_buffer2 rest s
  ok (record l {
    shared = s';
    phase = waiting;
    new_buffer1 = first;
    new_buffer2 = second;
    to_write = [];
  })

-- The next part of a round of `threadFunc`.
pub thread_step : Log → Checked Log
unfolding take_buffers write_buffers recycle_buffers
thread_step l = elim l.phase [
  | waiting ↦ take_buffers l
  | writing ↦ write_buffers l
  | recycling ↦ recycle_buffers l
]

-- What a step is: a line from some thread, or a part of the round.
pub data Op : Type 0 where
  line : List ℕ → Op
  back : Op

pub step : Op → Log → Checked Log
unfolding append thread_step
step (line xs) l = append xs l.shared >>= λ s. ok (record l { shared = s })
step back l = thread_step l

pub run : List Op → Log → Checked Log
unfolding step
run [] l = ok l
run (op ∷ ops) l = step op l >>= λ l'. run ops l'

-- The constructor and the start of `threadFunc`.
abbrev pub start : Log
start = record {
  shared = record {
    heap =
        (0, record { size = large_buffer; text = [] })
        ∷ (1, record { size = large_buffer; text = [] })
        ∷ (2, record { size = large_buffer; text = [] })
        ∷ (3, record { size = large_buffer; text = [] })
        ∷ [];
    next_address = 4;
    current = 0;
    next_buffer = some 1;
    buffers = [];
  };
  phase = waiting;
  new_buffer1 = some 2;
  new_buffer2 = some 3;
  to_write = [];
  output = [];
}
