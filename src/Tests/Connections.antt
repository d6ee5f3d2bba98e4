-- ===== src/Tests/Connections.antt =====
-- The connections, the server and its pool at concrete inputs.
use transfer_server.Prelude.{
  inr, ℕ, ◌+◌, ◌≡◌, ◌>>=◌, abort, ◌⊎◌, inl, refl, sym, true, false, List, [], ◌∷◌, ◌++◌, arith, ok,
  some, find, bytes_instance, bytes_eq, length, replicate, length-replicate, ap, ◌∙◌, bytes_eq_iff,
}
use transfer_server.Buffer.{Buffer}
use transfer_server.Channel.{read_event, write_event, union, none_event}
use transfer_server.TcpConnection.{
  connected, disconnecting, TcpConnection, accepts, send, handle_write,
}
use transfer_server.TcpConnection
use transfer_server.TcpConnection.Send.{stream, Sends, send-Sends}
use transfer_server.TcpConnection.Stream.{sends, writable, half_close, run, accepted, run-stream}
use transfer_server.Acceptor.{Acceptor, AcceptOutcome, connected, refused, handle_reads}
use transfer_server.Acceptor.Accepted.{Numbered, handle_reads-found}
use transfer_server.TcpServer.{
  Conn, TcpServer, ThreadPool, conn_name, get_next_loop, new_connection, remove_connection_in_loop,
  connect_destroyed, create, set_thread_num, start, start_loops, leave, listens,
}
use transfer_server.TcpServer
use transfer_server.TcpServer.Pool.{next_loops}
use transfer_server.TcpServer.Started.{started_server, start-cycle}
use transfer_server.Prelude.Int.{pos, negsuc}
use transfer_server.TcpServer.Names.{new_connection-found, remove_connection-found}

abbrev spare : List ℕ
spare = 0 ∷ 0 ∷ 0 ∷ 0 ∷ 0 ∷ 0 ∷ 0 ∷ 0 ∷ []

abbrev nothing : Buffer
nothing = record { bytes = spare; reader = 8; writer = 8 }

abbrev two_bytes : Buffer
two_bytes = record { bytes = spare ++ (1 ∷ 2 ∷ []); reader = 8; writer = 10 }

-- A connection with two bytes left to send.
abbrev writing : TcpConnection
writing = record {
  state = connected;
  channel = record {
    fd = 4;
    events = union read_event write_event;
    revents = none_event;
    index = some 0;
    event_handling = false;
    has_read = true;
    has_write = true;
    has_error = true;
    has_close = true;
  };
  input = nothing;
  output = two_bytes;
  sent = 9 ∷ [];
  write_closed = false;
  has_write_complete = true;
  notices = [];
}

writing-Inv : TcpConnection.Send.Inv writing
writing-Inv = record {
  valid = record {
    ordered = omega arith;
    within = omega arith;
    small = omega arith;
    headroom = omega arith;
  };
  waiting = refl;
  closing = inl refl;
}

run-stream_example :
    (c' : TcpConnection) × (run writing
        (sends (3 ∷ 4 ∷ []) 1 ∷ half_close ∷ writable 3 ∷ writable 3 ∷ [])
      ≡ ok c')
    × TcpConnection.Send.Inv c'
    × (stream c'
        ≡ stream writing
          ++ accepted true (sends (3 ∷ 4 ∷ []) 1 ∷ half_close ∷ writable 3 ∷ writable 3 ∷ []))
    × ((c'.write_closed ≡ false)
        ⊎ (c'.sent
            ≡ stream writing
              ++ accepted true (sends (3 ∷ 4 ∷ []) 1 ∷ half_close ∷ writable 3 ∷ writable 3 ∷ [])))
run-stream_example =
    run-stream (sends (3 ∷ 4 ∷ []) 1 ∷ half_close ∷ writable 3 ∷ writable 3 ∷ []) writing true
      writing-Inv refl (omega arith)

start-cycle_example :
    let here = started_server true (λ i. 11 + i) 3 10 (b's' ∷ []) in
    let there = started_server false (λ i. 11 + i) 3 10 (b's' ∷ []) in
    let alone = (started_server false (λ i. 11 + i) 0 10 (b's' ∷ [])).pool in
    (set_thread_num (negsuc 3) (create 10 (b's' ∷ [])) ≡ abort)
    × ((set_thread_num (pos 3) (create 10 (b's' ∷ [])) >>= start false (λ i. 11 + i)) ≡ ok there)
    × (next_loops 3 there.pool ≡ ok (11 ∷ 12 ∷ 13 ∷ [], there.pool))
    × (get_next_loop alone ≡ ok (10, alone))
    × (start false (λ i. 11 + i) here ≡ ok here)
    × (start false (λ i. 11 + i) there ≡ ok (leave listens there))
    × (start true (λ i. 11 + i) there ≡ ok (record there { listening = true }))
unfolding start_loops
start-cycle_example = start-cycle false (λ i. 11 + i) 3 10 (b's' ∷ [])

abbrev three_loops : ThreadPool
three_loops = record {
  base_loop = 10;
  started = true;
  num_threads = 3;
  next = 1;
  loops = 11 ∷ 12 ∷ 13 ∷ [];
}

-- Numbers written in ones.
abbrev ones : ℕ → List ℕ
ones n = replicate n 49

ones-injective : (m n : ℕ) → ones m ≡ ones n → m ≡ n
ones-injective m n e = sym (length-replicate m 49) ∙ ap length e ∙ length-replicate n 49

abbrev server : TcpServer
server = record {
  name = b's' ∷ [];
  pool = three_loops;
  started = true;
  listening = true;
  next_conn_id = 1;
  connections = [];
  left = [];
}

server-Inv : TcpServer.Names.Inv ones server
unfolding find bytes_eq
server-Inv = record {
  under_name = λ k c h. absurd (ground arith);
  numbered = λ k c h. absurd (ground arith);
}

abbrev first_name : List ℕ
first_name = conn_name ones (b's' ∷ []) 1

abbrev first_conn : Conn
first_conn = record { name = first_name; fd = 7; io_loop = 12 }

abbrev serving : TcpServer
serving = record server { next_conn_id = 2; connections = (first_name, first_conn) ∷ [] }

serving-Inv : TcpServer.Names.Inv ones serving
unfolding find bytes_eq
serving-Inv = record {
  under_name = λ k c h. ground (arith, bytes_eq_iff first_name k);
  numbered = λ k c h. (1, omega arith, ground (arith, bytes_eq_iff first_name k));
}

abbrev acceptor : Acceptor
acceptor = record { channel = 100; has_callback = true; listening = true }

-- Two clients, and between them no descriptor left for a third.
abbrev outcomes : List AcceptOutcome
outcomes = connected 7 ∷ refused 24 ∷ connected 9 ∷ []

handle_reads-found_example :
    (s' : TcpServer) × (handle_reads ones acceptor outcomes server ≡ ok s')
    × TcpServer.Names.Inv ones s'
    × Numbered ones (b's' ∷ []) 1 (7 ∷ 9 ∷ []) s'.connections
    × ((k : List ℕ) (c : Conn)
        → find k server.connections ≡ some c
        → find k s'.connections ≡ some c)
handle_reads-found_example =
    handle_reads-found ones acceptor outcomes server ones-injective refl server-Inv
      (inr (omega arith)) (omega arith)
