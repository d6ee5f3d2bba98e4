-- ===== src/Tests/Async.antt =====
-- The asynchronous log at concrete inputs.
use transfer_server.Prelude.{
  ℕ, ◌≤◌, ◌≡◌, refl, List, [], ◌∷◌, ◌++◌, arith, replicate, map, ok, find, nat_eq, true, false,
  some, none,
}
use transfer_server.LogStream.{FixedBuffer, large_buffer, avail}
use transfer_server.LogStream
use transfer_server.AsyncLogging.{AsyncLogging, Log, Op, line, back, writing, append, run, start}
use transfer_server.AsyncLogging.Interleave.{Complete, lines}
use transfer_server.LogFile.{System, File}
use transfer_server.LogFile.Keep.{all_text, Flushed}
use transfer_server.AsyncLogging.Whole.{Whole, happens, stops, whole_run}
use transfer_server.AsyncLogging.Whole.Held.{lines_in_files}
use transfer_server.AsyncLogging.Whole.Stopped.{AllBut, stop-unwritten}
use transfer_server.AsyncLogging.Aliases.{lost_after_overflow}

abbrev fresh : FixedBuffer
fresh = record { size = large_buffer; text = [] }

-- The first state is one with nothing handed over.
start-Complete : Complete start [] 0
unfolding find
start-Complete = record {
  other = 2;
  spare = 3;
  cb = fresh;
  ob = fresh;
  sb = fresh;
  good = record {
    current_at = refl;
    other_at = refl;
    spare_at = refl;
    two = omega arith;
    three = omega arith;
    apart = omega arith;
    current_size = refl;
    other_size = refl;
    spare_empty = refl;
    has_next = (1, refl);
    none_full = refl;
    second = refl;
    stage = (refl, refl, refl);
  };
  all_there = refl;
  filled = refl;
}

abbrev mixed : List Op
mixed =
    line (b'a' ∷ b'b' ∷ [])
    ∷ back
    ∷ line (b'c' ∷ [])
    ∷ back
    ∷ line (b'd' ∷ [])
    ∷ back
    ∷ back
    ∷ line (b'e' ∷ [])
    ∷ []

-- The members with buffers of four bytes.
abbrev small : Log
small = record start {
  shared = record start.shared {
    heap =
        (0, record { size = 4; text = b'a' ∷ b'b' ∷ [] })
        ∷ (1, record { size = 4; text = [] })
        ∷ (2, record { size = 4; text = [] })
        ∷ (3, record { size = 4; text = [] })
        ∷ [];
  };
}

abbrev three : List ℕ
three = b'x' ∷ b'y' ∷ b'z' ∷ []

lost_after_overflow_example :
    (s : AsyncLogging) × (l' : Log) × (append three small.shared ≡ ok s)
    × (run (line three ∷ map line (three ∷ three ∷ [])) small ≡ ok l')
    × (l'.output ≡ small.output)
    × ((q : ℕ) → find q l'.shared.heap ≡ find q s.heap)
unfolding find avail LogStream.append
lost_after_overflow_example =
    lost_after_overflow small (record { size = 4; text = b'a' ∷ b'b' ∷ [] })
      (record { size = 4; text = [] }) 1 three (three ∷ three ∷ []) refl refl refl (omega arith)
      (omega arith, (omega arith, tt))

-- A system that has all files and takes all bytes.
abbrev easy : System
easy = record { fwrite = λ i n. n; time = λ i. 5; opens = λ name. true; stamp = λ t. []; pid = [] }

abbrev log_file : File
log_file = record { name = []; text = []; flushed = 0; written_bytes = 0 }

abbrev whole : Whole
whole = record {
  log = start;
  file = record {
    basename = [];
    roll_size = 100;
    flush_interval = 3;
    count = 0;
    start_of_period = 0;
    last_roll = 5;
    last_flush = 5;
    file = some log_file;
    rolled = [];
    writes = 0;
    ticks = 1;
  };
  running = true;
  finished = false;
}

lines_in_files_example :
    (k : ℕ) × (w' : Whole) × (k ≤ 4)
    × (whole_run easy (map happens (mixed ++ replicate k back) ++ (happens back ∷ [])) whole
        ≡ ok w')
    × (all_text w'.file ≡ [] ++ lines mixed)
    × Flushed w'.file
lines_in_files_example =
    lines_in_files easy (λ name. refl) (λ i n h. h) mixed whole [] 0 (log_file, refl, refl) refl
      refl start-Complete (omega arith, (omega arith, (omega arith, (omega arith, tt))))

-- The thread writes "ab", and "c" has come in.
abbrev caught : Log
caught = record start {
  shared = record start.shared {
    heap =
        (0, record { size = large_buffer; text = b'a' ∷ b'b' ∷ [] })
        ∷ (1, record { size = large_buffer; text = [] })
        ∷ (2, record { size = large_buffer; text = b'c' ∷ [] })
        ∷ (3, record { size = large_buffer; text = [] })
        ∷ [];
    current = 2;
  };
  phase = writing;
  new_buffer1 = none;
  to_write = 0 ∷ [];
}

caught-Complete : Complete caught (b'a' ∷ b'b' ∷ b'c' ∷ []) 1
unfolding find
caught-Complete = record {
  other = 0;
  spare = 3;
  cb = record { size = large_buffer; text = b'c' ∷ [] };
  ob = record { size = large_buffer; text = b'a' ∷ b'b' ∷ [] };
  sb = fresh;
  good = record {
    current_at = refl;
    other_at = refl;
    spare_at = refl;
    two = omega arith;
    three = omega arith;
    apart = omega arith;
    current_size = refl;
    other_size = refl;
    spare_empty = refl;
    has_next = (1, refl);
    none_full = refl;
    second = refl;
    stage = (refl, refl);
  };
  all_there = refl;
  filled = refl;
}

stop-unwritten_example :
    (w' : Whole) × (whole_run easy
        (stops ∷ happens back ∷ happens back ∷ [])
        (record whole { log = caught })
      ≡ ok w')
    × (w'.finished ≡ true)
    × AllBut 1 (b'a' ∷ b'b' ∷ b'c' ∷ []) w'.file
    × Flushed w'.file
stop-unwritten_example =
    stop-unwritten easy (λ name. refl) (λ i n h. h) (record whole { log = caught })
      (b'a' ∷ b'b' ∷ b'c' ∷ []) 1 (log_file, refl, refl) refl caught-Complete
