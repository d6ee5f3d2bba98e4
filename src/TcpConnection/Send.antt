-- ===== src/TcpConnection/Send.antt =====
-- What is sent and what is still to send, through each operation of a connection.
use transfer_server.Prelude.{
  ℕ, ◌+◌, ◌-◌, ◌≤◌, ◌<◌, ◌≡◌, ◌⊎◌, inl, inr, refl, sym, ap, ap₂, subst, ◌∙◌, Bool, true, false, not,
  List, [], ◌∷◌, ◌++◌, arith, min, length, take, drop, find_byte, find_byte-le, take-append-drop,
  append_assoc, append-nil, ok, if◌then◌else◌, ltb, ◌==◌, Bool-cases, dec_lt, length-drop,
  length-append,
}
use transfer_server.Buffer.{Buffer, max_size, readable_bytes}
use transfer_server.Buffer.Ranges.{length-range}
use transfer_server.Buffer.Space.{IsValid, contents}
use transfer_server.Buffer.Contents.{Holds, append-Holds}
use transfer_server.Channel.{is_writing}
use transfer_server.TcpConnection.{
  connected, disconnecting, TcpConnection, accepts, transmit, complete, queued_output, keep_rest,
  send_in_loop, send,
}

-- The bytes handed over so far, sent or not.
abbrev pub stream : TcpConnection → List ℕ
stream c = c.sent ++ contents c.output

-- The output buffer is valid; the connection waits for room to write exactly while bytes are left in
-- it; and the sending side is down only after `shutdown`, with nothing left.
pub record Inv (c : TcpConnection) : Type 0 where
  pub valid : IsValid c.output
  pub waiting : is_writing c.channel ≡ not (length (contents c.output) == 0)
  pub closing : (c.write_closed ≡ false) ⊎ ((c.state ≡ disconnecting) × (contents c.output ≡ []))

pub readable-length : (b : Buffer) → IsValid b → readable_bytes b ≡ length (contents b)
unfolding readable_bytes
readable-length b v = omega (arith, length-range b.reader b.writer b.bytes v.ordered v.within)

pub length_zero : {A : Type 0} (xs : List A) → length xs ≡ 0 → xs ≡ []
length_zero [] e = refl
length_zero (x ∷ xs) e = absurd (omega arith)

-- From `c` to `c'` with `xs` handed over: the state stays, and the output buffer ends no later.
pub record Sends (c : TcpConnection) (xs : List ℕ) (limit : ℕ) (c' : TcpConnection) : Type 0 where
  pub inv : Inv c'
  pub handed : stream c' ≡ stream c ++ xs
  pub state : c'.state ≡ c.state
  pub no_later : c'.output.writer ≤ limit

module _ (c : TcpConnection) (message : List ℕ) (n : ℕ) (i : Inv c) (up : c.state ≡ connected)
    (fits : c.output.writer + length message ≤ max_size) (le : n ≤ length message)
    (empty : (n ≡ 0) ⊎ (contents c.output ≡ [])) where
  not_closed : c.write_closed ≡ false
  not_closed = elim i.closing [ inl h ↦ h | inr (s, e) ↦ absurd (ground (arith, up, s)) ]

  handed_over :
      (c.sent ++ take n message) ++ (contents c.output ++ drop n message) ≡ stream c ++ message
  handed_over = elim empty [
    | inl z ↦ rw z (
        ap (λ xs. xs ++ (contents c.output ++ message)) (append-nil c.sent)
        ∙ sym (append_assoc c.sent (contents c.output) message))
    | inr e ↦ rw e (
        append_assoc c.sent (take n message) (drop n message)
        ∙ ap (λ xs. c.sent ++ xs) (take-append-drop n message)
        ∙ ap (λ xs. xs ++ message) (sym (append-nil c.sent)))
  ]

  rest_length : length (drop n message) ≡ length message - n
  rest_length = length-drop n message

  queued-Sends :
      (c₁ : TcpConnection) (b : Buffer)
      → c₁.sent ≡ c.sent ++ take n message
      → c₁.channel ≡ c.channel
      → c₁.state ≡ c.state
      → c₁.write_closed ≡ c.write_closed
      → Holds b (contents c.output ++ drop n message) (c.output.writer + length message)
      → n < length message
      → Sends c message (c.output.writer + length message) (queued_output b c₁)
  queued-Sends c₁ b s ch st wc h lt =
      let some_left : 0 < length (contents b) = omega (
        arith,
        ap length h.shows,
        length-append (contents c.output) (drop n message),
        rest_length,
      ) in
      let handed = ap₂ (λ (xs : List ℕ) ys. xs ++ ys) s h.shows ∙ handed_over in
      elim (Bool-cases (is_writing c₁.channel)) [
        | inl w ↦ rw w (record {
          inv = record { valid = h.valid; waiting = ground arith; closing = inl (wc ∙ not_closed) };
          handed = handed;
          state = st;
          no_later = h.no_later;
        })
        | inr w ↦ rw w (record {
          inv = record { valid = h.valid; waiting = ground arith; closing = inl (wc ∙ not_closed) };
          handed = handed;
          state = st;
          no_later = h.no_later;
        })
      ]

  keep_rest-Sends :
      (c₁ : TcpConnection)
      → c₁.sent ≡ c.sent ++ take n message
      → c₁.output ≡ c.output
      → c₁.channel ≡ c.channel
      → c₁.state ≡ c.state
      → c₁.write_closed ≡ c.write_closed
      → (c' : TcpConnection) × (keep_rest n message c₁ ≡ ok c')
        × Sends c message (c.output.writer + length message) c'
  unfolding keep_rest
  keep_rest-Sends c₁ s o ch st wc = elim (dec_lt n (length message)) [
    | yes lt ↦
        let (b, e, h) =
          append-Holds c.output (drop n message) i.valid (omega (arith, rest_length)) in
        (
          queued_output b c₁,
          ground (arith, e, o),
          queued-Sends c₁ b s ch st wc
              (record {
                valid = h.valid;
                shows = h.shows;
                no_later = omega (arith, h.no_later, rest_length);
              })
              lt,
        )
    | no ge ↦ (
      c₁,
      ground arith,
      record {
        inv = record {
          valid = subst IsValid (sym o) i.valid;
          waiting = rw (ch, o) i.waiting;
          closing = inl (wc ∙ not_closed);
        };
        handed =
            ap₂ (λ (xs : List ℕ) b. xs ++ contents b) s o
            ∙ ap (λ xs. (c.sent ++ take n message) ++ xs)
                (sym (append-nil (contents c.output))
                  ∙ ap (λ xs. contents c.output ++ xs)
                      (sym (length_zero (drop n message) (omega (arith, rest_length)))))
            ∙ handed_over;
        state = st;
        no_later = ground (arith, o);
      },
    )
  ]

-- The callback of a completed write changes nothing of this.
completed_same :
    (c : TcpConnection) (b : Bool)
    → let c' = if b then c else complete c in
      (c'.sent ≡ c.sent)
      × (c'.output ≡ c.output)
      × (c'.channel ≡ c.channel)
      × (c'.state ≡ c.state)
      × (c'.write_closed ≡ c.write_closed)
completed_same c true = (refl, refl, refl, refl, refl)
completed_same c false = elim (Bool-cases c.has_write_complete) [
  | inl h ↦ rw h (refl, refl, refl, refl, refl)
  | inr h ↦ rw h (refl, refl, refl, refl, refl)
]

-- A message sent in the loop's thread while the connection is up and its invariant holds is taken
-- whole: its bytes follow all bytes handed over before, each either taken by the kernel or kept in
-- the output buffer, for which the connection then waits to write. The write does not fail, and the
-- buffer has room for the bytes below `max_size()`.
pub send-Sends :
    (c : TcpConnection) (message : List ℕ) (room : ℕ)
    → Inv c
    → c.state ≡ connected
    → c.output.writer + length message ≤ max_size
    → (c' : TcpConnection) × (send true message (accepts room) c ≡ ok c')
      × Sends c message (c.output.writer + length message) c'
unfolding send send_in_loop
send-Sends c message room i up fits = elim (Bool-cases (length (contents c.output) == 0)) [
  | inr some ↦
      let w : is_writing c.channel ≡ true = ground (arith, i.waiting) in
      let (c', e, h) =
        keep_rest-Sends c message 0 i up fits (omega arith) (inl refl) c (sym (append-nil c.sent))
          refl refl refl refl in
      (c', ground (arith, up, w, e), h)
  | inl none ↦
      let w : is_writing c.channel ≡ false = ground (arith, i.waiting) in
      let n = min room (find_byte 0 message) in
      let le : n ≤ length message = omega (arith, find_byte-le 0 message) in
      let empty : contents c.output ≡ [] = length_zero (contents c.output) (ground arith) in
      let c₁ = transmit n message c in
      let c₂ = if ltb n (length message) then c₁ else complete c₁ in
      let (s, o, ch, st, wc) = completed_same c₁ (ltb n (length message)) in
      let (c', e, h) = keep_rest-Sends c message n i up fits le (inr empty) c₂ s o ch st wc in
      (c', ground (arith, up, w, readable-length c.output i.valid, e), h)
]
