-- ===== src/Codec/Parse.antt =====
-- `parseMessage` on whole and on partial messages.
use mathlib.Core.Option
use transfer_server.Prelude.{
  ℕ, ◌+◌, ◌≤◌, ◌≡◌, ◌≢◌, refl, sym, ap, ◌∙◌, List, [], ◌∷◌, ◌++◌, arith, length, drop, none, some,
  ok, Free, Free-append, bytes_eq, bytes_eq_iff, find_byte, find_byte-append, find_byte-Free,
  drop-append_length, append_assoc, length-append,
}
use transfer_server.Buffer.Space.{IsValid, contents}
use transfer_server.Buffer.Contents.{retrieve-Holds, retrieve_until_lem}
use transfer_server.Buffer.Search.{
  crlf, search_crlf-append, search_crlf-Free, range-middle, find_crlf-line, find_crlf-Free,
  find_crlf_from_lem,
}
use transfer_server.Buffer.{Buffer, search_crlf, range, find_crlf, find_crlf_from, retrieve_until}
use transfer_server.Codec.{
  ParseResult, error, success, continue, Parsed, space, pub_cmd, parse_content, parse_command,
  parse_line, parse_message,
}

-- A command line "<cmd> <topic>" in front of the end of line.
abbrev line : List ℕ → List ℕ → List ℕ
line cmd topic = cmd ++ (space ∷ topic)

module _ (b : Buffer) (cmd topic rest : List ℕ) (v : IsValid b) (cmd_cr : Free 13 cmd)
    (cmd_space : Free space cmd) (topic_cr : Free 13 topic)
    (e : contents b ≡ line cmd topic ++ (crlf ++ rest)) where
  e_cmd : contents b ≡ cmd ++ (space ∷ topic ++ (crlf ++ rest))
  e_cmd = e ∙ append_assoc cmd (space ∷ topic) (crlf ++ rest)

  e_topic : contents b ≡ (cmd ++ space ∷ []) ++ (topic ++ (crlf ++ rest))
  e_topic = e_cmd ∙ sym (append_assoc cmd (space ∷ []) (topic ++ (crlf ++ rest)))

  line_cr : Free 13 (line cmd topic)
  line_cr = Free-append 13 cmd (space ∷ topic) cmd_cr (omega arith, topic_cr)

  length-line : length (line cmd topic) ≡ length cmd + (length topic + 1)
  length-line = length-append cmd (space ∷ topic) ∙ omega arith

  -- Where the first line is whole, the command and the topic are cut at the first space.
  parse_message-line :
      (old_cmd old_topic old_content : List ℕ)
      → parse_message b old_cmd old_topic old_content
        ≡ parse_command
            (record { result = error; cmd = cmd; topic = topic; content = old_content; buf = b })
            (b.reader + length (line cmd topic))
  unfolding parse_message parse_line
  parse_message-line old_cmd old_topic old_content =
      ground (arith, found, whole, at, first, second, length-line)
    where
      found : find_crlf b ≡ some (b.reader + length (line cmd topic))
      found = find_crlf-line b (line cmd topic) rest e line_cr

      whole : range b.reader (b.reader + length (line cmd topic)) b.bytes ≡ line cmd topic
      whole = range-middle b [] (line cmd topic) (crlf ++ rest) _ _ v e (omega arith) refl

      at : find_byte space (line cmd topic) ≡ length cmd
      at = find_byte-append space cmd topic cmd_space

      first : range b.reader (b.reader + length cmd) b.bytes ≡ cmd
      first = range-middle b [] cmd (space ∷ topic ++ (crlf ++ rest)) _ _ v e_cmd (omega arith) refl

      second :
          range (b.reader + length cmd + 1) (b.reader + length (line cmd topic)) b.bytes ≡ topic
      second =
          range-middle b (cmd ++ space ∷ []) topic (crlf ++ rest) _ _ v e_topic
            (omega (arith, length-append cmd (space ∷ []))) (omega (arith, length-line))

abbrev pub parsed : ParseResult → List ℕ → List ℕ → List ℕ → Buffer → Parsed
parsed r cmd topic content b = record {
  result = r;
  cmd = cmd;
  topic = topic;
  content = content;
  buf = b;
}

-- The buffer after the first `n` readable bytes.
abbrev pub advance : Buffer → ℕ → Buffer
advance b n = record b { reader = b.reader + n }

advance-contents :
    (b : Buffer) (n : ℕ) (xs ys : List ℕ)
    → IsValid b
    → contents b ≡ xs ++ ys
    → n ≡ length xs
    → (retrieve_until b (b.reader + n) ≡ ok (advance b n)) × (contents (advance b n) ≡ ys)
advance-contents b n xs ys v e q =
    let le : n ≤ length (contents b) = omega (arith, ap length e, length-append xs ys) in
    (
      retrieve_until_lem b n v le,
      (retrieve-Holds b n v le).shows ∙ ap (drop n) e ∙ drop-append_length xs ys n q,
    )

module _ (b : Buffer) (cmd topic rest : List ℕ) (old_cmd old_topic old_content : List ℕ)
    (v : IsValid b) (cmd_cr : Free 13 cmd) (cmd_space : Free space cmd)
    (topic_cr : Free 13 topic) where
  abbrev eol : ℕ
  eol = length (line cmd topic)

  -- In a valid buffer, a whole line "<cmd> <topic>\r\n" that holds no other "\r", whose command
  -- holds no space and is not "pub", is parsed into its two parts and is consumed with its end of
  -- line; the content is as the caller passed it.
  pub parse_message-plain :
      contents b ≡ line cmd topic ++ (crlf ++ rest)
      → cmd ≢ pub_cmd
      → (parse_message b old_cmd old_topic old_content
          ≡ ok (parsed success cmd topic old_content (advance b (eol + 2))))
        × (contents (advance b (eol + 2)) ≡ rest)
  unfolding parse_command
  parse_message-plain e ne =
      let l =
        parse_message-line b cmd topic rest v cmd_cr cmd_space topic_cr e old_cmd old_topic
          old_content in
      let a =
        advance-contents b (eol + 2) (line cmd topic ++ crlf) rest v
          (e ∙ sym (append_assoc (line cmd topic) crlf rest))
          (omega (arith, length-append (line cmd topic) crlf)) in
      let at_end : retrieve_until b (b.reader + eol + 2) ≡ ok (advance b (eol + 2)) =
        ap (retrieve_until b) {y = b.reader + (eol + 2)} (omega arith) ∙ a.0 in
      (l ∙ ground (arith, at_end, bytes_eq_iff cmd pub_cmd), a.1)

module _ (b : Buffer) (topic rest : List ℕ) (old_cmd old_topic old_content : List ℕ) (v : IsValid b)
    (topic_cr : Free 13 topic) where
  pub_cmd-Free : Free 13 pub_cmd × Free space pub_cmd
  pub_cmd-Free = omega arith

  pub_line :
      contents b ≡ line pub_cmd topic ++ (crlf ++ rest)
      → (parse_message b old_cmd old_topic old_content
          ≡ parse_content
              (parsed error pub_cmd topic old_content b)
              (b.reader + (length (line pub_cmd topic) + 2)))
        × (length (line pub_cmd topic) + 2 ≤ length (contents b))
        × (drop (length (line pub_cmd topic) + 2) (contents b) ≡ rest)
  unfolding parse_command bytes_eq
  pub_line e =
      let l =
        parse_message-line b pub_cmd topic rest v pub_cmd-Free.0 pub_cmd-Free.1 topic_cr e old_cmd
          old_topic old_content in
      let e' = e ∙ sym (append_assoc (line pub_cmd topic) crlf rest) in
      let n = length-append (line pub_cmd topic) crlf in
      (
        l
            ∙ ap (parse_content (parsed error pub_cmd topic old_content b))
                {x = b.reader + length (line pub_cmd topic) + 2} (omega arith),
        omega (arith, ap length e', n, length-append (line pub_cmd topic ++ crlf) rest),
        ap (drop (length (line pub_cmd topic) + 2)) e'
            ∙ drop-append_length (line pub_cmd topic ++ crlf) rest _ (omega (arith, n)),
      )

  -- In a valid buffer, a whole "pub" message whose topic and content hold no "\r" is parsed into
  -- its topic and its content and is consumed with both ends of line; what follows it stays
  -- readable.
  pub parse_message-pub :
      (content tail : List ℕ)
      → Free 13 content
      → rest ≡ content ++ (crlf ++ tail)
      → contents b ≡ line pub_cmd topic ++ (crlf ++ rest)
      → let n = length (line pub_cmd topic) + 2 + (length content + 2) in
        (parse_message b old_cmd old_topic old_content
          ≡ ok (parsed success pub_cmd topic content (advance b n)))
        × (contents (advance b n) ≡ tail)
  unfolding parse_content
  parse_message-pub content tail f q e =
      let n = length (line pub_cmd topic) + 2 in
      let l = pub_line e in
      let second : find_crlf_from b (b.reader + n) ≡ ok (some (b.reader + n + length content)) =
        find_crlf_from_lem b n v l.1
        ∙ ap (λ xs. ok (Option.map (λ k. b.reader + n + k) (search_crlf xs))) (l.2 ∙ q)
        ∙ ap (λ o. ok (Option.map (λ k. b.reader + n + k) o)) (search_crlf-append content tail f) in
      let third : range (b.reader + n) (b.reader + n + length content) b.bytes ≡ content =
        range-middle b (line pub_cmd topic ++ crlf) content (crlf ++ tail) _ _ v
          (e
            ∙ ap (λ r. line pub_cmd topic ++ (crlf ++ r)) q
            ∙ sym (append_assoc (line pub_cmd topic) crlf (content ++ (crlf ++ tail))))
          (omega (arith, length-append (line pub_cmd topic) crlf)) refl in
      let whole : contents b ≡ ((line pub_cmd topic ++ crlf) ++ (content ++ crlf)) ++ tail =
        e ∙ ap (λ r. line pub_cmd topic ++ (crlf ++ r)) q ∙ simp append_assoc in
      let a =
        advance-contents b (n + (length content + 2))
          ((line pub_cmd topic ++ crlf) ++ (content ++ crlf)) tail v whole
          (omega (
            arith,
            length-append (line pub_cmd topic ++ crlf) (content ++ crlf),
            length-append (line pub_cmd topic) crlf,
            length-append content crlf,
          )) in
      let at_end : retrieve_until b (b.reader + n + length content + 2)
          ≡ ok (advance b (n + (length content + 2))) =
        ap (retrieve_until b) {y = b.reader + (n + (length content + 2))} (omega arith) ∙ a.0 in
      (l.0 ∙ ground (arith, second, third, at_end), a.1)

  -- In a valid buffer, a "pub" line whose topic holds no "\r" and which no "\r" follows asks for
  -- more input and consumes nothing.
  pub parse_message-partial :
      Free 13 rest
      → contents b ≡ line pub_cmd topic ++ (crlf ++ rest)
      → parse_message b old_cmd old_topic old_content
        ≡ ok (parsed continue pub_cmd topic old_content b)
  unfolding parse_content
  parse_message-partial f e =
      let l = pub_line e in
      let n = length (line pub_cmd topic) + 2 in
      let second : find_crlf_from b (b.reader + n) ≡ ok none =
        find_crlf_from_lem b n v l.1
        ∙ ap (λ xs. ok (Option.map (λ k. b.reader + n + k) (search_crlf xs))) l.2
        ∙ ap (λ o. ok (Option.map (λ k. b.reader + n + k) o)) (search_crlf-Free rest f) in
      l.0 ∙ ground (arith, second)

-- With no "\r" in the buffer the parser asks for more input and changes nothing.
pub parse_message-unfinished :
    (b : Buffer) (cmd topic content : List ℕ)
    → Free 13 (contents b)
    → parse_message b cmd topic content ≡ ok (parsed continue cmd topic content b)
unfolding parse_message
parse_message-unfinished b cmd topic content f = ground (arith, find_crlf-Free b f)

-- In a valid buffer, a line that holds no space and no "\r" but that of its end is an error, and
-- nothing is consumed.
pub parse_message-error :
    (b : Buffer) (xs rest cmd topic content : List ℕ)
    → IsValid b
    → Free 13 xs
    → Free space xs
    → contents b ≡ xs ++ (crlf ++ rest)
    → parse_message b cmd topic content ≡ ok (parsed error cmd topic content b)
unfolding parse_message parse_line
parse_message-error b xs rest cmd topic content v f g e =
    let found : find_crlf b ≡ some (b.reader + length xs) = find_crlf-line b xs rest e f in
    let whole : range b.reader (b.reader + length xs) b.bytes ≡ xs =
      range-middle b [] xs (crlf ++ rest) _ _ v e (omega arith) refl in
    ground (arith, found, whole, find_byte-Free space xs g)
