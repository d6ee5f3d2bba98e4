-- ===== src/TcpConnection/Lifecycle/Freed.antt =====
-- The poller through the life of a connection.
use transfer_server.Prelude.{
  ℕ, ◌+◌, ◌*◌, ◌≤◌, ◌≡◌, refl, ap, ◌∙◌, Bool, List, [], ◌∷◌, ◌++◌, All, subst, none, some, ok,
  ◌>>=◌, arith, length, find, nat_eq,
}
use transfer_server.Channel.{none_event, enable_reading}
use transfer_server.Poller.{Poller}
use transfer_server.Poller.Inv.{Inv}
use transfer_server.TcpConnection.{
  updates, removes_channel, connection_callback, TcpConnection, create, connect_destroyed,
}
use transfer_server.TcpConnection.Made.{
  made, create-made, create-IsNew, set_up, torn_down, connect_established-up,
  connect_destroyed-down,
}
use transfer_server.Buffer.{cheap_prepend, max_size}
use transfer_server.Buffer.Space.{new_buffer-IsValid}
use transfer_server.TcpConnection.Lifecycle.{deliver, Life, Call, call_all, live}
use transfer_server.TcpConnection.Lifecycle.Safe.{IsSafe}
use transfer_server.TcpConnection.Lifecycle.Calls.{Fits, call_all-Goes}
use transfer_server.TcpConnection.Lifecycle.Quiet.{call_all-Moves}
use transfer_server.TcpConnection.Lifecycle.Tracked.{
  Keeps, Keeps-trans, first-Tracks, deliver-Tracks, last-Tracks, deliver-append, torn_down-notices,
}

-- A new connection after `connectEstablished`, with its buffers as they were made.
set_up-IsSafe :
    (size : ℕ) (has_write_complete : Bool) (fd : ℕ) (c : TcpConnection)
    → create has_write_complete fd ≡ ok c
    → IsSafe size cheap_prepend (set_up c)
set_up-IsSafe size has_write_complete fd c e =
    let q : made has_write_complete fd ≡ c = cc (create-made has_write_complete fd, e) in
    subst (λ c. IsSafe size cheap_prepend (set_up c)) q
      (record {
        alive = refl;
        input_valid = new_buffer-IsValid;
        input_end = omega arith;
        output_valid = new_buffer-IsValid;
        output_end = omega arith;
        short = (tt, (tt, tt));
      })

-- A connection is made of a socket whose descriptor no channel of its loop's poller has, and it is
-- established. Then come any calls of `handleRead`, `handleWrite`, `send` and `shutdown`, each in the loop's
-- thread or in another, and of `handleClose`, in any order, and with them the functors that the connection
-- leaves to its loop, of which the loop may run any number, in their order. No read and no message has more
-- than `size` bytes, there is room for that many bytes for each call below `max_size()`, and no direct write of
-- `sendInLoop` fails. Then every call goes through, and `connectDestroyed` behind them too: they pass all
-- assertions of the connection. And all changes of the mask and the removal, handed to the poller in
-- their order, pass the poller's assertions: in the end the poller does not know the descriptor any more, its
-- array is as long as before, its invariant holds, and it knows every other channel that it knew before.
pub connection-Freed :
    (has_write_complete : Bool) (fd size : ℕ) (c : TcpConnection) (ks : List Call) (p : Poller)
    (addr : ℕ)
    → create has_write_complete fd ≡ ok c
    → All (Fits size) ks
    → cheap_prepend + length ks * size ≤ max_size
    → Inv p
    → find addr p.store ≡ some c.channel
    → find fd p.channels ≡ none
    → (l : Life) × (c₃ : TcpConnection) × (live ks c ≡ ok l)
      × (connect_destroyed l.conn ≡ ok c₃)
      × (p' : Poller) × (deliver addr c₃.notices p ≡ ok p')
      × Inv p'
      × (find fd p'.channels ≡ none)
      × (length p'.pollfds ≡ length p.pollfds)
      × Keeps fd p p'
unfolding deliver
connection-Freed has_write_complete fd size c ks p addr new fits room v stored unused =
    let n = create-IsNew has_write_complete fd c new in
    let begun : Life = record { conn = set_up c; ran = 0 } in
    let (l, calls) =
      call_all-Goes size cheap_prepend ks begun fits room
        (set_up-IsSafe size has_write_complete fd c new) in
    let c₂ = l.conn in
    let m = call_all-Moves ks begun l calls in
    let e = (enable_reading c.channel).events in
    let (p₁, eq₁, t₁, k₁) = first-Tracks p fd addr c.channel e n.named v stored n.index unused in
    let (p₂, eq₂, t₂, k₂) = deliver-Tracks m.notices p₁ fd addr (length p.pollfds + 1) m.quiet t₁ in
    let (p₃, eq₃, v₃, free, sized, k₃) = last-Tracks p₂ fd addr (length p.pollfds) t₂ in
    let before = updates e ∷ connection_callback ∷ m.notices in
    let after = updates none_event ∷ connection_callback ∷ removes_channel ∷ [] in
    let told : c₂.notices ≡ before =
      m.grown ∙ ap (λ ns. ns ++ updates e ∷ [] ++ connection_callback ∷ [] ++ m.notices) n.fresh in
    let handed : deliver addr before p ≡ ok p₂ = rw eq₁ eq₂ in
    (
      l,
      torn_down c₂,
      ap (λ r. r >>= λ c'. call_all ks (record { conn = c'; ran = 0 }))
            (connect_established-up c n.state)
          ∙ calls,
      connect_destroyed-down c₂ (m.stays refl),
      p₃,
      ap (λ ns. deliver addr ns p) (torn_down-notices c₂ ∙ ap (λ ns. ns ++ after) told)
          ∙ deliver-append before after p p₂ addr handed
          ∙ eq₃,
      v₃,
      free,
      sized,
      Keeps-trans fd p p₂ p₃ (Keeps-trans fd p p₁ p₂ k₁ k₂) k₃,
    )
