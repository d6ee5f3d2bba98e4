-- ===== src/Codec.antt =====
-- src/codec.cpp and include/codec.h: the parser of the publish/subscribe protocol. A message is
-- "pub <topic>\r\n<content>\r\n" or "<command> <topic>\r\n".
pub mod Parse
use mathlib.Core.Option
use transfer_server.Prelude.{
  ℕ, ◌+◌, List, [], ◌∷◌, Option, none, some, Checked, ok, ◌>>=◌, if◌then◌else◌, ◌==◌, bytes_eq,
  find_byte,
}
use transfer_server.Buffer.{Buffer, range, find_crlf, find_crlf_from, retrieve_until}

pub data ParseResult : Type 0 where
  error success continue : ParseResult

-- The result, the three strings that the caller passes by reference, and the buffer.
pub record Parsed : Type 0 where
  pub result : ParseResult
  pub cmd : List ℕ
  pub topic : List ℕ
  pub content : List ℕ
  pub buf : Buffer

abbrev pub space : ℕ
space = b' '

abbrev pub pub_cmd : List ℕ
pub_cmd = b'p' ∷ b'u' ∷ b'b' ∷ []

-- The second line of a "pub" message, from `start` on.
parse_content : Parsed → ℕ → Checked Parsed
parse_content p start = do
  found ← find_crlf_from p.buf start
  elim found [
    | some crlf ↦ retrieve_until p.buf (crlf + 2) >>= λ b.
        ok (record p { result = success; content = range start crlf p.buf.bytes; buf = b })
    | none ↦ ok (record p { result = continue })
  ]

parse_command : Parsed → ℕ → Checked Parsed
unfolding parse_content
parse_command p crlf =
    if bytes_eq p.cmd pub_cmd
    then parse_content p (crlf + 2)
    else retrieve_until p.buf (crlf + 2) >>= λ b. ok (record p { result = success; buf = b })

-- The first line, which ends at `crlf`.
parse_line : Parsed → ℕ → Checked Parsed
unfolding parse_command
parse_line p crlf =
    let at = p.buf.reader + find_byte space (range p.buf.reader crlf p.buf.bytes) in
    if at == crlf
    then ok (record p { result = error })
    else parse_command
        (record p {
          cmd = range p.buf.reader at p.buf.bytes;
          topic = range (at + 1) crlf p.buf.bytes;
        })
        crlf

pub parse_message : Buffer → List ℕ → List ℕ → List ℕ → Checked Parsed
unfolding parse_line
parse_message b cmd topic content = elim (find_crlf b) [
  | some crlf ↦ parse_line (start error) crlf
  | none ↦ ok (start continue)
]
  where
    start : ParseResult → Parsed
    start r = record { result = r; cmd = cmd; topic = topic; content = content; buf = b }
