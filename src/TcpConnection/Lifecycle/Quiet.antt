-- ===== src/TcpConnection/Lifecycle/Quiet.antt =====
-- Between `connectEstablished` and `connectDestroyed` a connection stays up, and takes its channel out of
-- no loop.
use transfer_server.Prelude.{
  ℕ, ◌≡◌, refl, sym, ap, ◌∙◌, Bool, true, false, not, ◌&&◌, List, [], ◌∷◌, ◌++◌, append_assoc,
  append-nil, All, All-append, Checked, ok, abort, assert, bind-ok, subst, ◌>>=◌, min, length, drop,
  find_byte, ltb, if◌then◌else◌, ◌==◌, ◌+◌, Option, none, some, get_elem?,
}
use transfer_server.Buffer.{
  Buffer, ReadOutcome, got, failed, append, retrieve, read_fd, range, readable_bytes,
}
use transfer_server.Channel.{Channel, is_writing, enable_writing, disable_writing, disable_all}
use transfer_server.TcpConnection.{
  Notice, updates, removes_channel, message_callback, close_callback, write_complete_queued,
  send_queued, shutdown_queued, connection_callback, connected, disconnecting, TcpConnection,
  same_state, up, notify, set_interest, write_failed, accepts, WriteOutcome, complete, transmit,
  handle_close, handle_read, shutdown_in_loop, shutdown, written, handle_write, queued_output,
  keep_rest, send_in_loop, send,
}
use transfer_server.TcpConnection.Lifecycle.{
  Life, left_to_loop, run_left, with_conn, run_next, Call, reads, writes, sends, shuts_down, closes,
  runs_next, call, call_all,
}

abbrev pub IsQuiet : Notice → Type 0
IsQuiet removes_channel = ⊥
IsQuiet _ = Unit {0}

-- From `c` to `c'` the channel is not taken out of the loop, and the connection stays up.
pub record Moves (c c' : TcpConnection) : Type 0 where
  pub notices : List Notice
  pub grown : c'.notices ≡ c.notices ++ notices
  pub quiet : All IsQuiet notices
  pub stays : up c ≡ true → up c' ≡ true

abbrev pub Ends : TcpConnection → Checked TcpConnection → Type 0
Ends c (ok c') = Moves c c'
Ends c abort = Unit {0}

same_Moves : (c c' : TcpConnection) → c'.notices ≡ c.notices → c'.state ≡ c.state → Moves c c'
same_Moves c c' e s = record {
  notices = [];
  grown = e ∙ sym (append-nil c.notices);
  quiet = tt;
  stays =
      λ u. ap (λ st. if same_state st connected then true else same_state st disconnecting) s ∙ u;
}

pub Moves-trans : (c d e : TcpConnection) → Moves c d → Moves d e → Moves c e
Moves-trans c d e m n = record {
  notices = m.notices ++ n.notices;
  grown = n.grown ∙ ap (λ xs. xs ++ n.notices) m.grown ∙ append_assoc c.notices m.notices n.notices;
  quiet = All-append IsQuiet m.notices n.notices m.quiet n.quiet;
  stays = λ u. n.stays (m.stays u);
}

notify-Moves : (c d : TcpConnection) (n : Notice) → IsQuiet n → Moves c d → Moves c (notify n d)
notify-Moves c d n q m =
    Moves-trans c d (notify n d) m
      (record { notices = n ∷ []; grown = refl; quiet = (q, tt); stays = λ u. u })

set-Moves : (c d : TcpConnection) (f : Channel → Channel) → Moves c d → Moves c (set_interest f d)
set-Moves c d f m =
    let d' = record d { channel = f d.channel } in
    notify-Moves c d' (updates (f d.channel).events) tt
      (Moves-trans c d d' m (same_Moves d d' refl refl))

if_Moves : (b : Bool) (c x y : TcpConnection) → Moves c x → Moves c y → Moves c (if b then x else y)
if_Moves true c x y m n = m
if_Moves false c x y m n = n

if_Ends :
    (b : Bool) (c : TcpConnection) (x y : Checked TcpConnection)
    → (b ≡ true → Ends c x)
    → (b ≡ false → Ends c y)
    → Ends c (if b then x else y)
if_Ends true c x y m n = m refl
if_Ends false c x y m n = n refl

-- A step that gives nothing of its own to the connection.
bind_Ends :
    {A : Type 0} (m : Checked A) (c : TcpConnection) (f : A → Checked TcpConnection)
    → ((a : A) → m ≡ ok a → Ends c (f a))
    → Ends c (m >>= f)
bind_Ends (ok a) c f h = h a refl
bind_Ends abort c f h = tt

complete-Moves : (c d : TcpConnection) → Moves c d → Moves c (complete d)
complete-Moves c d m =
    if_Moves d.has_write_complete c (notify write_complete_queued d) d
      (notify-Moves c d write_complete_queued tt m) m

shutdown_in_loop-Moves : (c d : TcpConnection) → Moves c d → Moves c (shutdown_in_loop d)
unfolding shutdown_in_loop
shutdown_in_loop-Moves c d m =
    let d' = record d { write_closed = true } in
    if_Moves (is_writing d.channel) c d d' m (Moves-trans c d d' m (same_Moves d d' refl refl))

close-Ends : (c d : TcpConnection) → Moves c d → Ends c (handle_close d)
unfolding handle_close
close-Ends c d m =
    bind_Ends (assert (up d)) c (λ _. ok (notify close_callback (set_interest disable_all d)))
      λ _ _.
        notify-Moves c (set_interest disable_all d) close_callback tt (set-Moves c d disable_all m)

self_Moves : (c : TcpConnection) → Moves c c
self_Moves c = same_Moves c c refl refl

read-Ends : (c : TcpConnection) (o : ReadOutcome) → Ends c (handle_read o c)
unfolding handle_read
read-Ends c (got xs) = bind_Ends (read_fd c.input (got xs)) c _ λ r e.
    let d = record c { input = r.1 } in
    if_Ends (length xs == 0) c (handle_close d) (ok (notify message_callback d))
      (λ _. close-Ends c d (same_Moves c d refl refl))
      (λ _. notify-Moves c d message_callback tt (same_Moves c d refl refl))
read-Ends c (failed n) =
    bind_Ends (read_fd c.input (failed n)) c _
      λ r e. same_Moves c (record c { input = r.1 }) refl refl

shutdown-Moves : (c : TcpConnection) (in_loop : Bool) → Moves c (shutdown in_loop c)
unfolding shutdown
shutdown-Moves c in_loop =
    let d = record c { state = disconnecting } in
    let m : Moves c d = record {
      notices = [];
      grown = sym (append-nil c.notices);
      quiet = tt;
      stays = λ u. refl;
    } in
    if_Moves (same_state c.state connected) c _ c
      (if_Moves in_loop c (shutdown_in_loop d) (notify shutdown_queued d)
        (shutdown_in_loop-Moves c d m) (notify-Moves c d shutdown_queued tt m))
      (self_Moves c)

written-Ends : (c d : TcpConnection) (n : ℕ) → Moves c d → Ends c (written n d)
unfolding written
written-Ends c d n m = bind_Ends (retrieve d.output n) c _ λ b e.
    let c₁ = record d { output = b } in
    let m₁ = Moves-trans c d c₁ m (same_Moves d c₁ refl refl) in
    let c₂ = complete (set_interest disable_writing c₁) in
    let m₂ =
      complete-Moves c (set_interest disable_writing c₁) (set-Moves c c₁ disable_writing m₁) in
    if_Moves (readable_bytes b == 0) c _ c₁
      (if_Moves (same_state c₂.state disconnecting) c (shutdown_in_loop c₂) c₂
        (shutdown_in_loop-Moves c c₂ m₂) m₂)
      m₁

write-Ends : (c : TcpConnection) (o : WriteOutcome) → Ends c (handle_write o c)
unfolding handle_write
write-Ends c write_failed =
    if_Ends (not (is_writing c.channel)) c (ok c) (ok c) (λ _. self_Moves c) (λ _. self_Moves c)
write-Ends c (accepts room) =
    let xs = range c.output.reader c.output.writer c.output.bytes in
    let n = min room (length xs) in
    let d = transmit n xs c in
    if_Ends (not (is_writing c.channel)) c (ok c) (if n == 0 then ok c else written n d)
      (λ _. self_Moves c)
      λ _.
        if_Ends (n == 0) c (ok c) (written n d) (λ _. self_Moves c)
          (λ _. written-Ends c d n (same_Moves c d refl refl))

queued-Moves : (c d : TcpConnection) (b : Buffer) → Moves c d → Moves c (queued_output b d)
queued-Moves c d b m =
    let d₁ = record d { output = b } in
    let m₁ = Moves-trans c d d₁ m (same_Moves d d₁ refl refl) in
    if_Moves (is_writing d.channel) c d₁ (set_interest enable_writing d₁) m₁
      (set-Moves c d₁ enable_writing m₁)

keep-Ends :
    (c d : TcpConnection) (n : ℕ) (message : List ℕ) → Moves c d → Ends c (keep_rest n message d)
unfolding keep_rest
keep-Ends c d n message m =
    if_Ends (ltb n (length message)) c _ (ok d)
      (λ _.
        bind_Ends (append d.output (drop n message)) c (λ b. ok (queued_output b d))
          λ b _. queued-Moves c d b m)
      (λ _. m)

send_in_loop-Ends :
    (c : TcpConnection) (message : List ℕ) (o : WriteOutcome) → Ends c (send_in_loop message o c)
unfolding send_in_loop
send_in_loop-Ends c message write_failed =
    if_Ends (readable_bytes c.output == 0 && not (is_writing c.channel)) c abort
      (keep_rest 0 message c) (λ _. tt) (λ _. keep-Ends c c 0 message (self_Moves c))
send_in_loop-Ends c message (accepts room) =
    let n = min room (find_byte 0 message) in
    let c₁ = transmit n message c in
    let m₁ = same_Moves c c₁ refl refl in
    let c₂ = if ltb n (length message) then c₁ else complete c₁ in
    if_Ends (readable_bytes c.output == 0 && not (is_writing c.channel)) c (keep_rest n message c₂)
      (keep_rest 0 message c)
      (λ _.
        keep-Ends c c₂ n message
          (if_Moves (ltb n (length message)) c c₁ (complete c₁) m₁ (complete-Moves c c₁ m₁)))
      (λ _. keep-Ends c c 0 message (self_Moves c))

send-Ends :
    (c : TcpConnection) (in_loop : Bool) (message : List ℕ) (o : WriteOutcome)
    → Ends c (send in_loop message o c)
unfolding send
send-Ends c in_loop message o =
    if_Ends (same_state c.state connected) c _ (ok c)
      (λ _.
        if_Ends in_loop c (send_in_loop message o c) (ok (notify (send_queued message) c))
          (λ _. send_in_loop-Ends c message o)
          (λ _. notify-Moves c c (send_queued message) tt (self_Moves c)))
      (λ _. self_Moves c)

run_left-Ends : (o : WriteOutcome) (n : Notice) (c : TcpConnection) → Ends c (run_left o n c)
unfolding run_left
run_left-Ends o (send_queued message) c = send_in_loop-Ends c message o
run_left-Ends o shutdown_queued c = shutdown_in_loop-Moves c c (self_Moves c)
run_left-Ends o (updates e) c = self_Moves c
run_left-Ends o removes_channel c = self_Moves c
run_left-Ends o connection_callback c = self_Moves c
run_left-Ends o message_callback c = self_Moves c
run_left-Ends o close_callback c = self_Moves c
run_left-Ends o write_complete_queued c = self_Moves c

abbrev LifeEnds : Life → Checked Life → Type 0
LifeEnds l (ok l') = Moves l.conn l'.conn
LifeEnds l abort = Unit {0}

with_conn-Ends :
    (l l₁ : Life) (m : Checked TcpConnection) → Ends l.conn m → LifeEnds l (with_conn l₁ m)
with_conn-Ends l l₁ (ok c) e = e
with_conn-Ends l l₁ abort e = tt

run_next-Ends : (o : WriteOutcome) (l : Life) (n : Option Notice) → LifeEnds l (run_next o l n)
run_next-Ends o l none = self_Moves l.conn
run_next-Ends o l (some n) =
    with_conn-Ends l (record l { ran = l.ran + 1 }) (run_left o n l.conn) (run_left-Ends o n l.conn)

call-Ends : (k : Call) (l : Life) → LifeEnds l (call k l)
call-Ends (reads o) l = with_conn-Ends l l (handle_read o l.conn) (read-Ends l.conn o)
call-Ends (writes o) l = with_conn-Ends l l (handle_write o l.conn) (write-Ends l.conn o)
call-Ends (sends in_loop message o) l =
    with_conn-Ends l l (send in_loop message o l.conn) (send-Ends l.conn in_loop message o)
call-Ends (shuts_down in_loop) l = shutdown-Moves l.conn in_loop
call-Ends closes l =
    with_conn-Ends l l (handle_close l.conn) (close-Ends l.conn l.conn (self_Moves l.conn))
call-Ends (runs_next o) l = run_next-Ends o l (get_elem? (left_to_loop l.conn.notices) l.ran)

-- Through any calls that go through, the channel stays in the loop and the connection up.
pub call_all-Moves : (ks : List Call) (l l' : Life) → call_all ks l ≡ ok l' → Moves l.conn l'.conn
call_all-Moves [] l l' e = same_Moves l.conn l'.conn (cc) (cc)
call_all-Moves (k ∷ ks) l l' e =
    let (d, first, rest) = bind-ok (call k l) (call_all ks) l' e in
    Moves-trans l.conn d.conn l'.conn (subst (LifeEnds l) first (call-Ends k l))
      (call_all-Moves ks d l' rest)
