-- ===== src/AsyncLogging/Whole.antt =====
-- src/AsyncLogging.cpp with src/LogFile.cpp: the log's thread with the file that it writes to, `output` in
-- `threadFunc`, and with `running_`, which `stop()` clears. The thread tests `running_` at the end of
-- each round; what it does then, up to the end of its wait, is the part `waiting`.
pub mod Held
pub mod Stopped
use transfer_server.Prelude.{
  ℕ, Bool, true, false, not, List, [], ◌∷◌, Checked, ok, deref, ◌>>=◌, if◌then◌else◌, find, nat_eq,
}
use transfer_server.LogStream.{FixedBuffer}
use transfer_server.LogFile
use transfer_server.LogFile.{System, LogFile, append_all}
use transfer_server.AsyncLogging.{Log, Op, line, back, waiting, writing, recycling, step}

pub record Whole : Type 0 where
  pub log : Log
  pub file : LogFile
  pub running : Bool
  pub finished : Bool

-- What is written, one call of `LogFile::append` for each buffer.
unfoldable pub chunks : List (ℕ × FixedBuffer) → List ℕ → Checked (List (List ℕ))
chunks heap [] = ok []
chunks heap (p ∷ ps) = deref (find p heap) >>= λ b. chunks heap ps >>= λ rest. ok (b.text ∷ rest)

-- A line from some thread, a part of the thread's round, or `running_ = false` of `stop()`.
pub data Event : Type 0 where
  happens : Op → Event
  stops : Event

module _ (sys : System) where
  -- `output.append(…)` for each buffer.
  abbrev pub write_part : Whole → Checked Whole
  write_part w = do
    cs ← chunks w.log.shared.heap w.log.to_write
    file ← append_all sys cs w.file
    l ← step back w.log
    ok (record w { log = l; file = file })

  -- The end of the round with `output.flush()`, the test of the loop, and the flush behind the loop.
  abbrev pub recycle_part : Whole → Checked Whole
  recycle_part w = do
    l ← step back w.log
    file ← LogFile.flush w.file
    flushed ← (if w.running then ok file else LogFile.flush file)
    ok (record w { log = l; file = flushed; finished = not w.running })

  abbrev pub take_part : Whole → Checked Whole
  take_part w = step back w.log >>= λ l. ok (record w { log = l })

  unfoldable pub part : Whole → Checked Whole
  unfolding chunks
  part w = elim w.log.phase [
    | waiting ↦ take_part w
    | writing ↦ write_part w
    | recycling ↦ recycle_part w
  ]

  unfoldable pub whole_step : Event → Whole → Checked Whole
  unfolding part
  whole_step (happens (line xs)) w = step (line xs) w.log >>= λ l. ok (record w { log = l })
  whole_step (happens back) w = if w.finished then ok w else part w
  whole_step stops w = ok (record w { running = false })

  unfoldable pub whole_run : List Event → Whole → Checked Whole
  unfolding whole_step
  whole_run [] w = ok w
  whole_run (e ∷ es) w = whole_step e w >>= λ w'. whole_run es w'
