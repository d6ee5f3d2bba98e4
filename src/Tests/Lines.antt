-- ===== src/Tests/Lines.antt =====
-- Lines of the log, and files read as a whole, at concrete inputs.
use transfer_server.Prelude.{
  ◌↔◌, ℕ, inl, inr, ◌≡◌, ◌≢◌, ◌⊎◌, ◌++◌, All, length, refl, List, [], ◌∷◌, none, false, true, arith,
  replicate, ok, abort, take, drop, min,
}
use transfer_server.LogStream.{Item, text, convert, digits, rem_10, quot_10, zero_at}
use transfer_server.Logging.{
  Output, flush, ThreadCache, new_thread, leveled, named, trace, info, fatal, debug, output, log,
}
use transfer_server.Logging.LogLine.{Cached}
use transfer_server.Logging.Wording.{words, log-line, log-abort}
use transfer_server.LogStream.Digits.{IsDigit, spelled}
use transfer_server.Logging.Macros.{Site, log_trace, sets_level, logs, checks, run}
use transfer_server.Logging.Macros.Gate.{log_lines, run-log_lines}
use transfer_server.StringPiece.{StringPiece, set_buffer, from_string, as_string, compare}
use transfer_server.StringPiece.Order.{lexicographic, compare-lexicographic}
use transfer_server.Prelude.Int.{pos}
use transfer_server.FileUtil.{ReadOutcome, got, Contents, no_stat, read_file}
use transfer_server.FileUtil.Whole.{Serves, read_file-take}

abbrev stamp : ℕ → List ℕ
stamp t = replicate 17 b'0'

abbrev strerror : ℕ → List ℕ
strerror e = []

abbrev file : List ℕ
file = b's' ∷ b'/' ∷ b'a' ∷ []

abbrev hello : List Item
hello = text (b'h' ∷ b'i' ∷ []) ∷ []

log-line_example :
    (t' : ThreadCache) × (us : List ℕ) × (after : List Output) × (log stamp strerror 1000001 12345
        (leveled fatal)
        file
        7
        hello
        new_thread
      ≡ ok (
        t',
        output (
              stamp 1
              ++ (b'.'
                  ∷ (us
                      ++ (b'Z'
                          ∷ b' '
                          ∷ words stamp strerror 12345 (leveled fatal) (b'a' ∷ []) 7 hello))))
            ∷ after,
      ))
    × (length us ≡ 6)
    × All IsDigit us
    × (spelled 0 us ≡ 1)
    × (((fatal ≡ fatal) × (after ≡ flush ∷ [])) ⊎ ((fatal ≢ fatal) × (after ≡ [])))
    × Cached stamp strerror 12345 t'
unfolding convert digits rem_10 quot_10 zero_at
log-line_example =
    log-line stamp strerror 1000001 12345 new_thread (leveled fatal) file (b'a' ∷ []) 7 hello
      (record { tid_right = inl refl; time_right = inl refl })
      ((omega arith, tt), inr (b's' ∷ [], refl)) (omega arith) refl (omega arith) (omega arith)
      (omega arith)

log-abort_example :
    log stamp strerror 1000001 123456 (leveled debug) file 7 hello new_thread ≡ abort
log-abort_example =
    log-abort stamp strerror 1000001 123456 new_thread (leveled debug) file 7 hello refl
      (omega arith) (omega arith)

abbrev here : Site
here = record { micros = 1000001; tid = 12345; file = file; line = 7; func = b'f' ∷ [] }

-- Only FATAL is asked for, and TRACE is logged.
run-log_lines_example :
    run stamp strerror
      (sets_level fatal ∷ logs here log_trace hello ∷ checks here (b'p' ∷ []) none ∷ [])
      info
      new_thread
    ≡ log_lines stamp strerror
        ((here, named trace (b'f' ∷ []), hello) ∷ (here, leveled fatal, text (b'p' ∷ []) ∷ []) ∷ [])
        new_thread
run-log_lines_example =
    run-log_lines stamp strerror
      (sets_level fatal ∷ logs here log_trace hello ∷ checks here (b'p' ∷ []) none ∷ []) info
      new_thread

-- A file of three bytes, which comes byte by byte.
abbrev bytes : List ℕ
bytes = b'a' ∷ b'b' ∷ b'c' ∷ []

abbrev read : ℕ → ℕ → ℕ → ReadOutcome
read call offset n = got (take (min n 1) (drop offset bytes))

serves : Serves read bytes
serves = record {
  count = λ call offset n. min n 1;
  answers = λ call offset n. refl;
  enough = λ call offset n. omega arith;
  progress = λ call offset n h lt. omega (arith, h);
}

abbrev before : Contents
before = record { err = 5; content = []; file_size = none; modify_time = none; create_time = none }

read_file-take_example :
    read_file read 2 none (no_stat 1) false true true before
    ≡ record before { err = 0; content = take 2 bytes }
read_file-take_example = read_file-take read bytes 2 (no_stat 1) true true before serves

-- A piece in front of a longer string.
abbrev piece : StringPiece
piece = set_buffer (b'a' ∷ b'b' ∷ b'c' ∷ []) 2

abbrev other : StringPiece
other = from_string (b'a' ∷ b'c' ∷ [])

compare-lexicographic_example :
    (compare piece other ≡ ok (lexicographic (b'a' ∷ b'b' ∷ []) (b'a' ∷ b'c' ∷ [])))
    × ((lexicographic (b'a' ∷ b'b' ∷ []) (b'a' ∷ b'c' ∷ []) ≡ pos 0)
        ↔ (as_string piece ≡ as_string other))
compare-lexicographic_example = compare-lexicographic piece other (omega arith) (omega arith)
