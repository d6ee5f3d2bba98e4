-- ===== src/TcpConnection/Lifecycle.antt =====
-- src/TcpConnection.cpp with src/Poller.cpp: what a connection changes at its channel reaches the poller
-- of its loop. The channel of the connection is the one that the poller's store has at `addr`.
-- What the callbacks do is left out: in particular the message callback may take bytes from the input
-- buffer, which only makes room in it. `connectDestroyed` comes after all these calls.
pub mod Quiet
pub mod Safe
pub mod Calls
pub mod Tracked
pub mod Freed
use transfer_server.Prelude.{
  ℕ, ◌+◌, Bool, true, false, List, [], ◌∷◌, Option, none, some, get_elem?, Checked, ok, ◌>>=◌,
}
use transfer_server.Buffer.{ReadOutcome}
use transfer_server.Channel.{Events, Channel}
use transfer_server.Poller.{Poller, change_interest, remove_channel}
use transfer_server.TcpConnection.{
  Notice, updates, removes_channel, connection_callback, message_callback, close_callback,
  write_complete_queued, send_queued, shutdown_queued, TcpConnection, WriteOutcome, handle_close,
  handle_read, handle_write, send, shutdown, send_in_loop, shutdown_in_loop, connect_established,
}

abbrev pub with_events : Events → Channel → Channel
with_events e c = record c { events = e }

-- `Channel::update` and `EventLoop::removeChannel` end in the poller; the callbacks do not.
unfoldable pub deliver : ℕ → List Notice → Poller → Checked Poller
deliver addr [] p = ok p
deliver addr (updates e ∷ ns) p = change_interest p addr (with_events e) >>= λ q. deliver addr ns q
deliver addr (removes_channel ∷ ns) p = remove_channel p addr >>= λ q. deliver addr ns q
deliver addr (connection_callback ∷ ns) p = deliver addr ns p
deliver addr (message_callback ∷ ns) p = deliver addr ns p
deliver addr (close_callback ∷ ns) p = deliver addr ns p
deliver addr (write_complete_queued ∷ ns) p = deliver addr ns p
deliver addr (send_queued _ ∷ ns) p = deliver addr ns p
deliver addr (shutdown_queued ∷ ns) p = deliver addr ns p

-- The connection, and how many of the functors that it has left to its loop the loop has run.
pub record Life : Type 0 where
  pub conn : TcpConnection
  pub ran : ℕ

-- The functors that a connection leaves to its loop: `sendInLoop` and `shutdownInLoop`.
unfoldable pub left_to_loop : List Notice → List Notice
left_to_loop [] = []
left_to_loop (updates e ∷ ns) = left_to_loop ns
left_to_loop (removes_channel ∷ ns) = left_to_loop ns
left_to_loop (connection_callback ∷ ns) = left_to_loop ns
left_to_loop (message_callback ∷ ns) = left_to_loop ns
left_to_loop (close_callback ∷ ns) = left_to_loop ns
left_to_loop (write_complete_queued ∷ ns) = left_to_loop ns
left_to_loop (send_queued message ∷ ns) = send_queued message ∷ left_to_loop ns
left_to_loop (shutdown_queued ∷ ns) = shutdown_queued ∷ left_to_loop ns

-- What the loop runs for such a functor.
unfoldable pub run_left : WriteOutcome → Notice → TcpConnection → Checked TcpConnection
run_left o (send_queued message) c = send_in_loop message o c
run_left o shutdown_queued c = ok (shutdown_in_loop c)
run_left o _ c = ok c

-- What happens to a connection between `connectEstablished` and `connectDestroyed`; `runs_next` is the loop
-- that runs the next functor left to it.
pub data Call : Type 0 where
  reads : ReadOutcome → Call
  writes : WriteOutcome → Call
  sends : Bool → List ℕ → WriteOutcome → Call
  shuts_down : Bool → Call
  closes : Call
  runs_next : WriteOutcome → Call

abbrev pub with_conn : Life → Checked TcpConnection → Checked Life
with_conn l m = m >>= λ c. ok (record l { conn = c })

abbrev pub run_next : WriteOutcome → Life → Option Notice → Checked Life
run_next o l none = ok l
run_next o l (some n) = with_conn (record l { ran = l.ran + 1 }) (run_left o n l.conn)

abbrev pub call : Call → Life → Checked Life
call (reads o) l = with_conn l (handle_read o l.conn)
call (writes o) l = with_conn l (handle_write o l.conn)
call (sends in_loop message o) l = with_conn l (send in_loop message o l.conn)
call (shuts_down in_loop) l = ok (record l { conn = shutdown in_loop l.conn })
call closes l = with_conn l (handle_close l.conn)
call (runs_next o) l = run_next o l (get_elem? (left_to_loop l.conn.notices) l.ran)

abbrev pub call_all : List Call → Life → Checked Life
call_all [] l = ok l
call_all (k ∷ ks) l = call k l >>= λ l'. call_all ks l'

-- `connectEstablished`, and then these calls.
abbrev pub live : List Call → TcpConnection → Checked Life
live ks c = connect_established c >>= λ c'. call_all ks (record { conn = c'; ran = 0 })
