-- ===== src/TcpConnection/Write.antt =====
-- The bytes of a connection through `handleWrite`.
use transfer_server.Prelude.{
  ℕ, ◌+◌, ◌≡◌, inl, inr, refl, sym, ap, ap₂, ◌∙◌, true, false, ◌&&◌, List, [], ◌++◌, arith, min,
  length, take, drop, drop_all, take-append-drop, append_assoc, append-nil, ok, if◌then◌else◌, ◌==◌,
  Bool-cases,
}
use transfer_server.Buffer.{readable_bytes, retrieve}
use transfer_server.Buffer.Space.{IsValid, contents}
use transfer_server.Buffer.Contents.{Holds, retrieve_lem, retrieve-Holds}
use transfer_server.Channel.{is_writing, disable_writing}
use transfer_server.TcpConnection.{
  ConnState, connecting, connected, disconnecting, disconnected, TcpConnection, accepts, same_state,
  transmit, complete, written, handle_write, shutdown_in_loop, set_interest,
}
use transfer_server.TcpConnection.Send.{stream, Inv, Sends, readable-length, length_zero}

pub same_state_iff : (a b : ConnState) → same_state a b ≡ true → a ≡ b
same_state_iff connecting connecting e = refl
same_state_iff connected connected e = refl
same_state_iff disconnecting disconnecting e = refl
same_state_iff disconnected disconnected e = refl
same_state_iff connecting connected e = cc
same_state_iff connecting disconnecting e = cc
same_state_iff connecting disconnected e = cc
same_state_iff connected connecting e = cc
same_state_iff connected disconnecting e = cc
same_state_iff connected disconnected e = cc
same_state_iff disconnecting connecting e = cc
same_state_iff disconnecting connected e = cc
same_state_iff disconnecting disconnected e = cc
same_state_iff disconnected connecting e = cc
same_state_iff disconnected connected e = cc
same_state_iff disconnected disconnecting e = cc

-- The connection after the last byte has gone.
abbrev flushed : TcpConnection → TcpConnection
flushed c = complete (set_interest disable_writing c)

flushed-Inv :
    (c : TcpConnection)
    → IsValid c.output
    → contents c.output ≡ []
    → c.write_closed ≡ false
    → let c' =
        if same_state c.state disconnecting then shutdown_in_loop (flushed c) else flushed c in
      Inv c' × (c'.sent ≡ c.sent) × (c'.output ≡ c.output) × (c'.state ≡ c.state)
unfolding shutdown_in_loop
flushed-Inv c v e w =
    let off : (c.channel.events.pollout && false) ≡ false = ground arith in
    elim (Bool-cases (same_state c.state disconnecting)) [
      | inl d ↦ elim (Bool-cases c.has_write_complete) [
        | inl h ↦
            rw (d, h, off)
              (
                record {
                  valid = v;
                  waiting = ground (arith, e);
                  closing = inr (same_state_iff c.state disconnecting d, e);
                },
                refl,
                refl,
                refl,
              )
        | inr h ↦
            rw (d, h, off)
              (
                record {
                  valid = v;
                  waiting = ground (arith, e);
                  closing = inr (same_state_iff c.state disconnecting d, e);
                },
                refl,
                refl,
                refl,
              )
      ]
      | inr d ↦ elim (Bool-cases c.has_write_complete) [
        | inl h ↦
            rw (d, h)
              (record { valid = v; waiting = ground (arith, e); closing = inl w }, refl, refl, refl)
        | inr h ↦
            rw (d, h)
              (record { valid = v; waiting = ground (arith, e); closing = inl w }, refl, refl, refl)
      ]
    ]

module _ (c : TcpConnection) (i : Inv c) (room : ℕ) where
  abbrev taken : ℕ
  taken = min room (length (contents c.output))

  -- The state after `retrieve`, before the buffer is found empty or not.
  abbrev shortened : TcpConnection
  shortened = record (transmit taken (contents c.output) c) {
    output = record c.output { reader = c.output.reader + taken };
  }

  shortened-Holds : Holds shortened.output (drop taken (contents c.output)) c.output.writer
  shortened-Holds = retrieve-Holds c.output taken i.valid (omega arith)

  retrieve-ok : retrieve c.output taken ≡ ok shortened.output
  retrieve-ok = retrieve_lem c.output taken i.valid ∙ ground arith

  handed_on : stream shortened ≡ stream c ++ []
  handed_on =
      ap (λ xs. (c.sent ++ take taken (contents c.output)) ++ xs) shortened-Holds.shows
      ∙ append_assoc c.sent (take taken (contents c.output)) (drop taken (contents c.output))
      ∙ ap (λ xs. c.sent ++ xs) (take-append-drop taken (contents c.output))
      ∙ sym (append-nil (stream c))

  still_open : is_writing c.channel ≡ true → c.write_closed ≡ false
  still_open w = elim i.closing [ inl h ↦ h | inr (s, e) ↦ absurd (ground (arith, i.waiting, e)) ]

  left-length : readable_bytes shortened.output ≡ length (contents shortened.output)
  left-length = readable-length shortened.output shortened-Holds.valid

  written-Sends :
      is_writing c.channel ≡ true
      → (c' : TcpConnection) × (written taken (transmit taken (contents c.output) c) ≡ ok c')
        × Sends c [] c.output.writer c'
        × (contents c'.output ≡ drop taken (contents c.output))
  unfolding written
  written-Sends w = elim (Bool-cases (length (contents shortened.output) == 0)) [
    | inl gone ↦
        let e : contents shortened.output ≡ [] =
          length_zero (contents shortened.output) (ground arith) in
        let (inv, s, o, st) = flushed-Inv shortened shortened-Holds.valid e (still_open w) in
        (
          (if same_state shortened.state disconnecting
              then shutdown_in_loop (flushed shortened)
              else flushed shortened),
          ground (arith, retrieve-ok, left-length),
          record {
            inv = inv;
            handed = ap₂ (λ (xs : List ℕ) b. xs ++ contents b) s o ∙ handed_on;
            state = st;
            no_later = ground (arith, o);
          },
          ap contents o ∙ shortened-Holds.shows,
        )
    | inr left ↦ (
      shortened,
      ground (arith, retrieve-ok, left-length),
      record {
        inv = record {
          valid = shortened-Holds.valid;
          waiting = ground arith;
          closing = inl (still_open w);
        };
        handed = handed_on;
        state = refl;
        no_later = omega arith;
      },
      shortened-Holds.shows,
    )
  ]

  unchanged : Sends c [] c.output.writer c
  unchanged = record {
    inv = i;
    handed = sym (append-nil (stream c));
    state = refl;
    no_later = omega arith;
  }

  none_left : is_writing c.channel ≡ false → contents c.output ≡ drop taken (contents c.output)
  none_left w =
      let z : length (contents c.output) ≡ 0 = ground (arith, i.waiting) in
      length_zero (contents c.output) z ∙ sym (drop_all taken (contents c.output) (omega arith))

  -- Where the invariant holds, `handleWrite` passes on as many of the bytes kept as the kernel
  -- takes, from the front, and keeps the rest; the connection still waits to write exactly if some
  -- are left.
  pub handle_write-Sends :
      (c' : TcpConnection) × (handle_write (accepts room) c ≡ ok c')
      × Sends c [] c.output.writer c'
      × (contents c'.output ≡ drop (min room (length (contents c.output))) (contents c.output))
  unfolding handle_write
  handle_write-Sends = elim (Bool-cases (is_writing c.channel)) [
    | inr w ↦ (c, ground arith, unchanged, none_left w)
    | inl w ↦ elim (Bool-cases (taken == 0)) [
      | inl z ↦ (
        c,
        ground arith,
        unchanged,
        ap (λ k. drop k (contents c.output)) {x = 0} {y = taken} (ground arith),
      )
      | inr nz ↦ let (c', e, h, k) = written-Sends w in (c', ground arith, h, k)
    ]
  ]
