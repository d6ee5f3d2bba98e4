-- ===== src/TcpConnection/Stream.antt =====
-- Any sequence of calls of `send`, `handleWrite` and `shutdown` in the loop's thread.
use transfer_server.Prelude.{
  ℕ, ◌+◌, ◌≤◌, ◌≡◌, ◌⊎◌, inl, inr, refl, sym, ap, ◌∙◌, Bool, true, false, List, [], ◌∷◌, ◌++◌,
  arith, length, append_assoc, append-nil, ok, Checked, ◌>>=◌, Bool-cases,
}
use transfer_server.Buffer.{max_size}
use transfer_server.Buffer.Space.{contents}
use transfer_server.Channel.{is_writing}
use transfer_server.TcpConnection.{
  connected, TcpConnection, accepts, same_state, handle_write, shutdown_in_loop, shutdown, send,
}
use transfer_server.TcpConnection.Send.{stream, Inv, send-Sends, length_zero}
use transfer_server.TcpConnection.Write.{handle_write-Sends, same_state_iff}

-- With each call of `write`, how many bytes the kernel has room for.
pub data Op : Type 0 where
  sends : List ℕ → ℕ → Op
  writable : ℕ → Op
  half_close : Op

pub run : TcpConnection → List Op → Checked TcpConnection
run c [] = ok c
run c (sends message room ∷ ops) = send true message (accepts room) c >>= λ c'. run c' ops
run c (writable room ∷ ops) = handle_write (accepts room) c >>= λ c'. run c' ops
run c (half_close ∷ ops) = run (shutdown true c) ops

-- The messages of a connection that takes them until it is shut down.
pub accepted : Bool → List Op → List ℕ
accepted b [] = []
accepted true (sends message room ∷ ops) = message ++ accepted true ops
accepted false (sends message room ∷ ops) = accepted false ops
accepted b (writable room ∷ ops) = accepted b ops
accepted b (half_close ∷ ops) = accepted false ops

abbrev pub total : List Op → ℕ
total [] = 0
total (sends message room ∷ ops) = length message + total ops
total (writable room ∷ ops) = total ops
total (half_close ∷ ops) = total ops

shutdown-Inv :
    (c : TcpConnection)
    → Inv c
    → let c' = shutdown true c in
      Inv c'
      × (stream c' ≡ stream c)
      × (same_state c'.state connected ≡ false)
      × (c'.output ≡ c.output)
unfolding shutdown shutdown_in_loop
shutdown-Inv c i = elim (Bool-cases (same_state c.state connected)) [
  | inr n ↦ rw n (i, refl, n, refl)
  | inl s ↦ elim (Bool-cases (is_writing c.channel)) [
    | inl w ↦
        rw (s, w)
          (
            record { valid = i.valid; waiting = sym w ∙ i.waiting; closing = inl (still_open s) },
            refl,
            refl,
            refl,
          )
    | inr w ↦
        rw (s, w)
          (
            record {
              valid = i.valid;
              waiting = sym w ∙ i.waiting;
              closing = inr (refl, length_zero (contents c.output) (ground (arith, i.waiting)));
            },
            refl,
            refl,
            refl,
          )
  ]
]
  where
    still_open : same_state c.state connected ≡ true → c.write_closed ≡ false
    still_open s = elim i.closing [
      | inl h ↦ h
      | inr (d, e) ↦ absurd (ground (arith, ap (λ x. same_state x connected) d))
    ]

send-dropped :
    (c : TcpConnection) (message : List ℕ) (room : ℕ)
    → same_state c.state connected ≡ false
    → send true message (accepts room) c ≡ ok c
unfolding send
send-dropped c message room n = rw n refl

-- From a connection whose invariant holds, whatever is called and however much the kernel takes at
-- a time, no call aborts, and what has been sent and what is kept to send are together the bytes of
-- before and then all messages accepted, in order and none twice; once the sending side is shut
-- down all of them have been sent. No write fails in the sequence, and the buffer has room for all
-- the bytes below `max_size()`.
pub run-stream :
    (ops : List Op) (c : TcpConnection) (b : Bool)
    → Inv c
    → same_state c.state connected ≡ b
    → c.output.writer + total ops ≤ max_size
    → (c' : TcpConnection) × (run c ops ≡ ok c')
      × Inv c'
      × (stream c' ≡ stream c ++ accepted b ops)
      × ((c'.write_closed ≡ false) ⊎ (c'.sent ≡ stream c ++ accepted b ops))
unfolding run accepted
run-stream [] c b i s fits = (
  c,
  refl,
  i,
  sym (append-nil (stream c)),
  elim i.closing [
    | inl h ↦ inl h
    | inr (_, e) ↦
        inr
          (sym (append-nil c.sent) ∙ ap (λ xs. c.sent ++ xs) (sym e) ∙ sym (append-nil (stream c)))
  ],
)
run-stream (sends message room ∷ ops) c true i s fits =
    let (c₁, e, h) =
      send-Sends c message room i (same_state_iff c.state connected s) (omega arith) in
    let (c', e', i', a, z) =
      run-stream ops c₁ true h.inv (ap (λ x. same_state x connected) h.state ∙ s)
        (omega (arith, h.no_later)) in
    let q : stream c₁ ++ accepted true ops ≡ stream c ++ (message ++ accepted true ops) =
      ap (λ xs. xs ++ accepted true ops) h.handed
      ∙ append_assoc (stream c) message (accepted true ops) in
    (c', rw e e', i', a ∙ q, elim z [ inl o ↦ inl o | inr g ↦ inr (g ∙ q) ])
run-stream (sends message room ∷ ops) c false i s fits =
    let (c', e', i', a, z) = run-stream ops c false i s (omega arith) in
    (c', rw (send-dropped c message room s) e', i', a, z)
run-stream (writable room ∷ ops) c b i s fits =
    let (c₁, e, h, _) = handle_write-Sends c i room in
    let (c', e', i', a, z) =
      run-stream ops c₁ b h.inv (ap (λ x. same_state x connected) h.state ∙ s)
        (omega (arith, h.no_later)) in
    let q : stream c₁ ++ accepted b ops ≡ stream c ++ accepted b ops =
      ap (λ xs. xs ++ accepted b ops) (h.handed ∙ append-nil (stream c)) in
    (c', rw e e', i', a ∙ q, elim z [ inl o ↦ inl o | inr g ↦ inr (g ∙ q) ])
run-stream (half_close ∷ ops) c b i s fits =
    let (i₁, same, down, o) = shutdown-Inv c i in
    let (c', e', i', a, z) = run-stream ops (shutdown true c) false i₁ down (rw o (omega arith)) in
    let q : stream (shutdown true c) ++ accepted false ops ≡ stream c ++ accepted false ops =
      ap (λ xs. xs ++ accepted false ops) same in
    (c', e', i', a ∙ q, elim z [ inl o ↦ inl o | inr g ↦ inr (g ∙ q) ])
