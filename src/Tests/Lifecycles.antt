-- ===== src/Tests/Lifecycles.antt =====
-- A connection, a server and a loop from their start to their end.
use transfer_server.Prelude.{
  ℕ, ◌≡◌, refl, arith, true, false, List, [], ◌∷◌, none, some, ok, abort, find, assign, erase,
  nat_eq, bytes_instance, bytes_eq, length, replicate, length-replicate, ap, sym, ◌∙◌,
}
use transfer_server.Poller.{Poller}
use transfer_server.Poller.Inv.{Inv}
use transfer_server.TcpConnection.{
  accepts, TcpConnection, connected, disconnected, connect_destroyed,
}
use transfer_server.TcpConnection.Made.{made, create-made}
use transfer_server.TcpConnection.Lifecycle.{
  Life, Call, reads, writes, sends, runs_next, live, deliver,
}
use transfer_server.Buffer.{got}
use transfer_server.TcpConnection.Lifecycle.Tracked.{Keeps}
use transfer_server.TcpConnection.Lifecycle.Freed.{connection-Freed}
use transfer_server.TcpServer.{Conn, TcpServer, ThreadPool, conn_name, get_next_loop}
use transfer_server.TcpServer
use transfer_server.TcpServer.Turns.{Turns, turns, run}
use transfer_server.TcpServer.Turns
use transfer_server.TcpServer.Turns.Played.{run-turns}
use transfer_server.EventLoop.{EventLoop}
use transfer_server.EventLoop.Created.{Places, Thread, claim_thread, create, Reads, create-Reads}

-- A poller that knows nothing, with a new channel.
abbrev unaware : Poller
unaware = record { store = (100, (made false 4).channel) ∷ []; pollfds = []; channels = [] }

unaware-Inv : Inv unaware
unfolding find
unaware-Inv = record { slots = λ i pfd e. cc e; known = λ fd addr e. cc e }

-- A message from another thread, which the loop runs, a read, and the end of the stream.
abbrev lived : List Call
lived =
    sends false (1 ∷ 2 ∷ []) (accepts 0)
    ∷ runs_next (accepts 1)
    ∷ reads (got (7 ∷ []))
    ∷ writes (accepts 9)
    ∷ reads (got [])
    ∷ []

connection-Freed_example :
    (l : Life) × (c₃ : TcpConnection) × (live lived (made false 4) ≡ ok l)
    × (connect_destroyed l.conn ≡ ok c₃)
    × (p' : Poller) × (deliver 100 c₃.notices unaware ≡ ok p')
    × Inv p'
    × (find 4 p'.channels ≡ none)
    × (length p'.pollfds ≡ 0)
    × Keeps 4 unaware p'
unfolding find
connection-Freed_example =
    connection-Freed false 4 2 (made false 4) lived unaware 100 (create-made false 4)
      ((omega arith, tt), (tt, (omega arith, (tt, (omega arith, tt))))) (omega arith) unaware-Inv
      refl refl

abbrev ones : ℕ → List ℕ
ones n = replicate n 49

abbrev pool : ThreadPool
pool = record { base_loop = 10; started = true; num_threads = 0; next = 0; loops = [] }

abbrev new_server : TcpServer
new_server = record {
  name = b's' ∷ [];
  pool = pool;
  started = true;
  listening = true;
  next_conn_id = 1;
  connections = [];
  left = [];
}

abbrev conn : ℕ → ℕ → Conn
conn id fd = record { name = conn_name ones (b's' ∷ []) id; fd = fd; io_loop = 10 }

-- Two connections, of which the first goes.
abbrev served : TcpServer
served = record new_server {
  next_conn_id = 3;
  connections = (conn_name ones (b's' ∷ []) 2, conn 2 9) ∷ [];
  left =
      TcpServer.connect_established (conn 1 7)
      ∷ TcpServer.connect_established (conn 2 9)
      ∷ TcpServer.connect_destroyed (conn 1 7)
      ∷ [];
}

run-turns_example :
    (m : Turns) × (turns true served.left [] ≡ ok m)
    × ((k : List ℕ) (conn : Conn)
        → find k served.connections ≡ some conn
        → (c : TcpConnection) × (find k m ≡ some c) × (c.state ≡ connected))
    × ((k : List ℕ) (c : TcpConnection)
        → find k served.connections ≡ none
        → find k m ≡ some c
        → c.state ≡ disconnected)
unfolding run TcpServer.new_connection TcpServer.remove_connection_in_loop find assign erase
    bytes_eq
run-turns_example =
    run-turns ones true
      (TcpServer.Turns.accepts 7
        ∷ TcpServer.Turns.accepts 9
        ∷ TcpServer.Turns.closes (conn 1 7)
        ∷ [])
      new_server served (λ m n e. sym (length-replicate m 49) ∙ ap length e ∙ length-replicate n 49)
      refl refl refl

abbrev places : Places
places = record { self = 1; timer_channel = 100; timer_fd = 3; wakeup_channel = 200; free = 1000 }

abbrev no_loop : Thread
no_loop = record { loop_in_this_thread = none; fatal = false }

create-Reads_example :
    (l : EventLoop) × (create places (some 4) no_loop ≡ ok (l, claim_thread 1 no_loop))
    × Inv l.poller
    × Reads l.poller 3 100 0
    × Reads l.poller 4 200 1
    × (length l.poller.pollfds ≡ 2)
    × (l.looping ≡ false)
    × (create places none no_loop ≡ abort)
create-Reads_example = create-Reads places 4 no_loop (omega arith) (omega arith)
