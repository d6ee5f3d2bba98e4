-- ===== src/TcpConnection/Lifecycle/Calls.antt =====
-- Every call goes through: each needs room for the bytes that it may add.
use transfer_server.Prelude.{
  ℕ, zero, suc, ◌+◌, ◌*◌, ◌≤◌, ◌≡◌, refl, ap, ◌∙◌, Bool, not, ◌&&◌, List, [], ◌∷◌, All, Option,
  none, some, get_elem?, Checked, ok, ◌>>=◌, min, length, drop, length-drop, find_byte, ltb,
  if◌then◌else◌, ◌==◌, arith,
}
use transfer_server.Buffer.{got, failed, append, read_fd, readable_bytes, max_size}
use transfer_server.Buffer.Contents.{append-Holds}
use transfer_server.Buffer.Edges.{read_fd-Holds}
use transfer_server.Channel.{is_writing, enable_writing}
use transfer_server.TcpConnection.{
  Notice, updates, removes_channel, connection_callback, message_callback, close_callback,
  write_complete_queued, send_queued, shutdown_queued, connected, TcpConnection, same_state, notify,
  set_interest, write_failed, accepts, WriteOutcome, complete, transmit, handle_close, handle_read,
  handle_write, shutdown_in_loop, shutdown, queued_output, keep_rest, send_in_loop, send,
}
use transfer_server.TcpConnection.Lifecycle.{
  Life, left_to_loop, run_left, with_conn, run_next, Call, reads, writes, sends, shuts_down, closes,
  runs_next, call, call_all,
}
use transfer_server.TcpConnection.Lifecycle.Safe.{
  IsShort, IsSafe, Goes, if_Goes, if_IsSafe, bind_Goes, done, notify-IsSafe, set-IsSafe,
  with_output, with_sent, complete-IsSafe, shutdown_in_loop-IsSafe, shutdown-IsSafe, close-Goes,
  write-Goes, raise, raised,
}

-- A direct write of `sendInLoop` that does not fail.
abbrev pub Writes : WriteOutcome → Type 0
Writes write_failed = ⊥
Writes (accepts room) = Unit {0}

-- A read gives, and a message has, `size` bytes at most, and no direct write fails.
abbrev pub Fits : ℕ → Call → Type 0
Fits size (reads (got xs)) = length xs ≤ size
Fits size (reads (failed errno)) = Unit {0}
Fits size (writes o) = Unit {0}
Fits size (sends in_loop message o) = (length message ≤ size) × Writes o
Fits size (shuts_down in_loop) = Unit {0}
Fits size closes = Unit {0}
Fits size (runs_next o) = Writes o

left-IsShort :
    (size : ℕ) (ns : List Notice) → All (IsShort size) ns → All (IsShort size) (left_to_loop ns)
unfolding left_to_loop
left-IsShort size [] h = tt
left-IsShort size (updates e ∷ ns) h = left-IsShort size ns h.1
left-IsShort size (removes_channel ∷ ns) h = left-IsShort size ns h.1
left-IsShort size (connection_callback ∷ ns) h = left-IsShort size ns h.1
left-IsShort size (message_callback ∷ ns) h = left-IsShort size ns h.1
left-IsShort size (close_callback ∷ ns) h = left-IsShort size ns h.1
left-IsShort size (write_complete_queued ∷ ns) h = left-IsShort size ns h.1
left-IsShort size (send_queued message ∷ ns) h = (h.0, left-IsShort size ns h.1)
left-IsShort size (shutdown_queued ∷ ns) h = (tt, left-IsShort size ns h.1)

-- What holds of all, holds of the one found.
IfSome : ℕ → Option Notice → Type 0
IfSome size none = Unit {0}
IfSome size (some n) = IsShort size n

found-IsShort :
    (size : ℕ) (ns : List Notice) (i : ℕ) → All (IsShort size) ns → IfSome size (get_elem? ns i)
unfolding IfSome
found-IsShort size [] i h = tt
found-IsShort size (n ∷ ns) zero h = h.0
found-IsShort size (n ∷ ns) (suc i) h = found-IsShort size ns i h.1

module _ (size limit : ℕ) (room_left : limit + size ≤ max_size) where
  read-Goes :
      (c : TcpConnection) (xs : List ℕ)
      → length xs ≤ size
      → IsSafe size limit c
      → Goes size (limit + size) (handle_read (got xs) c)
  unfolding handle_read
  read-Goes c xs le s =
      let (b, e, h) =
        read_fd-Holds c.input xs s.input_valid (omega (arith, s.input_end, le, room_left)) in
      let d = record c { input = b } in
      let s' : IsSafe size (limit + size) d = record {
        alive = s.alive;
        input_valid = h.valid;
        input_end = omega (arith, h.no_later, s.input_end, le);
        output_valid = s.output_valid;
        output_end = omega (arith, s.output_end);
        short = s.short;
      } in
      bind_Goes size (limit + size) (read_fd c.input (got xs)) _ (none, b) e
        (if_Goes size (limit + size) (length xs == 0) (handle_close d)
          (ok (notify message_callback d)) (λ _. close-Goes size (limit + size) d s')
          (λ _.
            done size (limit + size) (notify message_callback d)
              (notify-IsSafe size (limit + size) d message_callback tt s')))

  refused-Goes :
      (c : TcpConnection) (errno : ℕ)
      → IsSafe size limit c
      → Goes size limit (handle_read (failed errno) c)
  unfolding handle_read read_fd
  refused-Goes c errno s = (c, refl, s)

  keep-Goes :
      (c : TcpConnection) (n : ℕ) (message : List ℕ)
      → length message ≤ size
      → IsSafe size limit c
      → Goes size (limit + size) (keep_rest n message c)
  unfolding keep_rest
  keep-Goes c n message le s =
      let rest = drop n message in
      let short : length rest ≤ size = omega (arith, length-drop n message, le) in
      let (b, e, h) =
        append-Holds c.output rest s.output_valid (omega (arith, s.output_end, short, room_left)) in
      let c₁ = record c { output = b } in
      let s₁ =
        with_output size (limit + size) c b h.valid (omega (arith, h.no_later, s.output_end, short))
          (raise size limit size c s) in
      if_Goes size (limit + size) (ltb n (length message)) _ (ok c)
        (λ _.
          bind_Goes size (limit + size) (append c.output rest) (λ b. ok (queued_output b c)) b e
            (done size (limit + size) (queued_output b c) (
              if_IsSafe size (limit + size) (is_writing c.channel) c₁
                (set_interest enable_writing c₁) s₁
                (set-IsSafe size (limit + size) c₁ enable_writing s₁))))
        (λ _. done size (limit + size) c (raise size limit size c s))

  send_in_loop-Goes :
      (c : TcpConnection) (message : List ℕ) (o : WriteOutcome)
      → length message ≤ size
      → Writes o
      → IsSafe size limit c
      → Goes size (limit + size) (send_in_loop message o c)
  unfolding send_in_loop
  send_in_loop-Goes c message write_failed le w s = absurd w
  send_in_loop-Goes c message (accepts room) le w s =
      let n = min room (find_byte 0 message) in
      let c₁ = transmit n message c in
      let s₁ = with_sent size limit c c₁.sent s in
      let c₂ = if ltb n (length message) then c₁ else complete c₁ in
      if_Goes size (limit + size) (readable_bytes c.output == 0 && not (is_writing c.channel))
        (keep_rest n message c₂) (keep_rest 0 message c)
        (λ _. keep-Goes c₂ n message le (
          if_IsSafe size limit (ltb n (length message)) c₁ (complete c₁) s₁
            (complete-IsSafe size limit c₁ s₁)))
        (λ _. keep-Goes c 0 message le s)

  send-Goes :
      (c : TcpConnection) (in_loop : Bool) (message : List ℕ) (o : WriteOutcome)
      → length message ≤ size
      → Writes o
      → IsSafe size limit c
      → Goes size (limit + size) (send in_loop message o c)
  unfolding send
  send-Goes c in_loop message o le w s =
      let s' = raise size limit size c s in
      if_Goes size (limit + size) (same_state c.state connected) _ (ok c)
        (λ _.
          if_Goes size (limit + size) in_loop (send_in_loop message o c)
            (ok (notify (send_queued message) c)) (λ _. send_in_loop-Goes c message o le w s)
            (λ _.
              done size (limit + size) (notify (send_queued message) c)
                (notify-IsSafe size (limit + size) c (send_queued message) le s')))
        (λ _. done size (limit + size) c s')

  run_left-Goes :
      (c : TcpConnection) (o : WriteOutcome) (n : Notice)
      → IsShort size n
      → Writes o
      → IsSafe size limit c
      → Goes size (limit + size) (run_left o n c)
  unfolding run_left
  run_left-Goes c o (send_queued message) le w s = send_in_loop-Goes c message o le w s
  run_left-Goes c o shutdown_queued le w s =
      raised size limit size _
        (done size limit (shutdown_in_loop c) (shutdown_in_loop-IsSafe size limit c s))
  run_left-Goes c o (updates e) le w s = (c, refl, raise size limit size c s)
  run_left-Goes c o removes_channel le w s = (c, refl, raise size limit size c s)
  run_left-Goes c o connection_callback le w s = (c, refl, raise size limit size c s)
  run_left-Goes c o message_callback le w s = (c, refl, raise size limit size c s)
  run_left-Goes c o close_callback le w s = (c, refl, raise size limit size c s)
  run_left-Goes c o write_complete_queued le w s = (c, refl, raise size limit size c s)

  abbrev LifeGoes : Checked Life → Type 0
  LifeGoes m = (l : Life) × (m ≡ ok l) × IsSafe size (limit + size) l.conn

  with_conn-Goes :
      (l : Life) (m : Checked TcpConnection) → Goes size (limit + size) m → LifeGoes (with_conn l m)
  with_conn-Goes l m (c, e, s) =
      (record l { conn = c }, ap (λ n. n >>= λ c. ok (record l { conn = c })) e, s)

  run_next-Goes :
      (l : Life) (o : WriteOutcome) (n : Option Notice)
      → IfSome size n
      → Writes o
      → IsSafe size limit l.conn
      → LifeGoes (run_next o l n)
  unfolding IfSome
  run_next-Goes l o none h w s = (l, refl, raise size limit size l.conn s)
  run_next-Goes l o (some n) h w s =
      with_conn-Goes (record l { ran = l.ran + 1 }) (run_left o n l.conn)
        (run_left-Goes l.conn o n h w s)

  call-Goes : (k : Call) (l : Life) → Fits size k → IsSafe size limit l.conn → LifeGoes (call k l)
  call-Goes (reads (got xs)) l f s =
      with_conn-Goes l (handle_read (got xs) l.conn) (read-Goes l.conn xs f s)
  call-Goes (reads (failed errno)) l f s =
      with_conn-Goes l (handle_read (failed errno) l.conn)
        (raised size limit size _ (refused-Goes l.conn errno s))
  call-Goes (writes o) l f s =
      with_conn-Goes l (handle_write o l.conn)
        (raised size limit size _ (write-Goes size limit l.conn o s))
  call-Goes (sends in_loop message o) l f s =
      with_conn-Goes l (send in_loop message o l.conn)
        (send-Goes l.conn in_loop message o f.0 f.1 s)
  call-Goes (shuts_down in_loop) l f s = (
    record l { conn = shutdown in_loop l.conn },
    refl,
    raise size limit size (shutdown in_loop l.conn) (shutdown-IsSafe size limit l.conn in_loop s),
  )
  call-Goes closes l f s =
      with_conn-Goes l (handle_close l.conn)
        (raised size limit size _ (close-Goes size limit l.conn s))
  call-Goes (runs_next o) l f s =
      let left = left_to_loop l.conn.notices in
      run_next-Goes l o (get_elem? left l.ran)
        (found-IsShort size left l.ran (left-IsShort size l.conn.notices s.short)) f s

-- With room for `size` bytes for each call, all calls go through.
pub call_all-Goes :
    (size limit : ℕ) (ks : List Call) (l : Life)
    → All (Fits size) ks
    → limit + length ks * size ≤ max_size
    → IsSafe size limit l.conn
    → (l' : Life) × (call_all ks l ≡ ok l')
call_all-Goes size limit [] l f room s = (l, refl)
call_all-Goes size limit (k ∷ ks) l f room s =
    let all_size : (length ks + 1) * size ≡ size + length ks * size = grind arith in
    let (l₁, e, s₁) = call-Goes size limit (omega (arith, room, all_size)) k l f.0 s in
    let (l', e') = call_all-Goes size (limit + size) ks l₁ f.1 (omega (arith, room, all_size)) s₁ in
    (l', ap (λ m. m >>= call_all ks) e ∙ e')
