-- ===== src/Tests/Buffers.antt =====
-- The buffer, the parser and the table of clients at concrete inputs.
use transfer_server.Prelude.{
  ℕ, ◌+◌, ◌<◌, ◌≡◌, refl, List, [], ◌∷◌, ◌++◌, arith, ok, none, some, length,
}
use transfer_server.Buffer.{Buffer, shrink, search_crlf}
use transfer_server.Buffer.Space.{IsValid, contents}
use transfer_server.Buffer.Edges.{shrink_breaks}
use transfer_server.Buffer.Fifo.{put, get, get_all, run, run_queue, run-run_queue}
use transfer_server.Buffer.Search.{search_crlf-append}
use transfer_server.Codec.{success, parse_message}
use transfer_server.Codec.Parse.{advance, parsed, parse_message-pub}
use transfer_server.Register.Refine
use transfer_server.Register.Refine.{
  registers, adds, queries, unregisters, run_values, run-run_values, empty, empty-Shows,
}

abbrev spare : List ℕ
spare = 0 ∷ 0 ∷ 0 ∷ 0 ∷ 0 ∷ 0 ∷ 0 ∷ 0 ∷ []

abbrev holding : List ℕ → Buffer
holding xs = record { bytes = spare ++ xs; reader = 8; writer = 8 + length xs }

-- "abc", of which "ab" is read already and one byte is free.
abbrev worn : Buffer
worn = record { bytes = spare ++ (b'a' ∷ b'b' ∷ b'c' ∷ 0 ∷ []); reader = 10; writer = 11 }

worn-IsValid : IsValid worn
worn-IsValid = record {
  ordered = omega arith;
  within = omega arith;
  small = omega arith;
  headroom = omega arith;
}

abbrev abc : Buffer
abc = holding (b'a' ∷ b'b' ∷ b'c' ∷ [])

abc-IsValid : IsValid abc
abc-IsValid = record {
  ordered = omega arith;
  within = omega arith;
  small = omega arith;
  headroom = omega arith;
}

run-run_queue_example :
    run worn (put (1 ∷ 2 ∷ 3 ∷ []) ∷ get 2 ∷ get_all ∷ get 1 ∷ [])
    ≡ run_queue (b'c' ∷ []) (put (1 ∷ 2 ∷ 3 ∷ []) ∷ get 2 ∷ get_all ∷ get 1 ∷ [])
run-run_queue_example =
    run-run_queue (put (1 ∷ 2 ∷ 3 ∷ []) ∷ get 2 ∷ get_all ∷ get 1 ∷ []) worn 11 worn-IsValid
      (omega arith) (omega arith)

shrink_breaks_example : length (shrink worn 0).bytes < (shrink worn 0).writer
shrink_breaks_example = shrink_breaks worn 0 worn-IsValid (omega arith)

search_one : search_crlf (1 ∷ 13 ∷ 10 ∷ 3 ∷ []) ≡ some 1
search_one = search_crlf-append (1 ∷ []) (3 ∷ []) (omega arith)

-- "sub a\r\nx"
abbrev sub_line : Buffer
sub_line = holding (b's' ∷ b'u' ∷ b'b' ∷ b' ' ∷ b'a' ∷ 13 ∷ 10 ∷ b'x' ∷ [])

sub_line-IsValid : IsValid sub_line
sub_line-IsValid = record {
  ordered = omega arith;
  within = omega arith;
  small = omega arith;
  headroom = omega arith;
}

-- "pub a\r\nhi\r\nx"
abbrev pub_message : Buffer
pub_message =
    holding (b'p' ∷ b'u' ∷ b'b' ∷ b' ' ∷ b'a' ∷ 13 ∷ 10 ∷ b'h' ∷ b'i' ∷ 13 ∷ 10 ∷ b'x' ∷ [])

pub_message-IsValid : IsValid pub_message
pub_message-IsValid = record {
  ordered = omega arith;
  within = omega arith;
  small = omega arith;
  headroom = omega arith;
}

parse_message-pub_example :
    (parse_message pub_message [] [] []
      ≡ ok (
          parsed success
            (b'p' ∷ b'u' ∷ b'b' ∷ [])
            (b'a' ∷ [])
            (b'h' ∷ b'i' ∷ [])
            (advance pub_message 11)))
    × (contents (advance pub_message 11) ≡ b'x' ∷ [])
parse_message-pub_example =
    parse_message-pub pub_message (b'a' ∷ []) (b'h' ∷ b'i' ∷ 13 ∷ 10 ∷ b'x' ∷ []) [] [] []
      pub_message-IsValid (omega arith) (b'h' ∷ b'i' ∷ []) (b'x' ∷ []) (omega arith) refl refl

-- "pub a\r\nh"
abbrev half_message : Buffer
half_message = holding (b'p' ∷ b'u' ∷ b'b' ∷ b' ' ∷ b'a' ∷ 13 ∷ 10 ∷ b'h' ∷ [])

half_message-IsValid : IsValid half_message
half_message-IsValid = record {
  ordered = omega arith;
  within = omega arith;
  small = omega arith;
  headroom = omega arith;
}

-- "x\r\n"
abbrev bare_line : Buffer
bare_line = holding (b'x' ∷ 13 ∷ 10 ∷ [])

bare_line-IsValid : IsValid bare_line
bare_line-IsValid = record {
  ordered = omega arith;
  within = omega arith;
  small = omega arith;
  headroom = omega arith;
}

run-run_values_example :
    Refine.run empty (registers (1 ∷ []) ∷ adds (1 ∷ []) ∷ queries (1 ∷ []) ∷ queries (2 ∷ []) ∷ [])
    ≡ run_values
        (λ k. none)
        (registers (1 ∷ []) ∷ adds (1 ∷ []) ∷ queries (1 ∷ []) ∷ queries (2 ∷ []) ∷ [])
run-run_values_example =
    run-run_values (registers (1 ∷ []) ∷ adds (1 ∷ []) ∷ queries (1 ∷ []) ∷ queries (2 ∷ []) ∷ [])
      empty (λ k. none) empty-Shows (omega arith)
