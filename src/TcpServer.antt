-- ===== src/TcpServer.antt =====
-- include/TcpServer.h, src/TcpServer.cpp, include/EventLoopThreadPool.h, src/EventLoopThreadPool.cpp:
-- the server's connections by name, and the pool of loops that it gives them to. A loop is an
-- address. The loops that `EventLoopThread::startLoop` makes and the digits that `snprintf` writes
-- for "%d" are parameters. `left` are the calls left to a loop, in their order; of the acceptor
-- (src/Acceptor.cpp) the server sees whether it listens. `assertInLoopThread` only writes to the log
-- (EventLoop).
pub mod Pool
pub mod Names
pub mod Turns
pub mod Started
use transfer_server.Prelude.{
  ℕ, zero, suc, ◌+◌, Bool, true, false, not, ◌&&◌, List, [], ◌∷◌, ◌++◌, map, Option, none, some,
  Checked, ok, abort, assert, ◌>>=◌, ◌>>◌, if◌then◌else◌, leb, length, get_elem?, find, assign,
  erase, bytes_instance,
}
use transfer_server.Prelude.Int.{ℤ, pos, negsuc}
use transfer_server.Register.{next_int}

pub record ThreadPool : Type 0 where
  pub base_loop : ℕ
  pub started : Bool
  pub num_threads : ℕ
  pub next : ℕ
  pub loops : List ℕ

-- The loops of `n` threads, the first of them the thread `i`.
unfoldable pub start_loops : (ℕ → ℕ) → ℕ → ℕ → List ℕ
start_loops start_loop i zero = []
start_loops start_loop i (suc n) = start_loop i ∷ start_loops start_loop (i + 1) n

unfoldable pub start_pool : (ℕ → ℕ) → ThreadPool → Checked ThreadPool
unfolding start_loops
start_pool start_loop p = do
  assert (not p.started)
  ok (record p { started = true; loops = p.loops ++ start_loops start_loop 0 p.num_threads })

unfoldable pub get_next_loop : ThreadPool → Checked (ℕ × ThreadPool)
get_next_loop p = do
  elim p.loops [
    | [] ↦ ok (p.base_loop, p)
    | _ ∷ _ ↦ elim (get_elem? p.loops p.next) [
      | none ↦ abort
      | some l ↦
          ok (l, record p { next = if leb (length p.loops) (p.next + 1) then 0 else p.next + 1 })
    ]
  ]

-- What the server keeps of a `TcpConnection`: its name, its descriptor and its loop.
pub record Conn : Type 0 where
  pub name : List ℕ
  pub fd : ℕ
  pub io_loop : ℕ

pub data Task : Type 0 where
  listens : Task
  connect_established connect_destroyed removes : Conn → Task

pub record TcpServer : Type 0 where
  pub name : List ℕ
  pub pool : ThreadPool
  pub started : Bool
  pub listening : Bool
  pub next_conn_id : ℕ
  pub connections : List (List ℕ × Conn)
  pub left : List Task

-- `EventLoopThreadPool(baseLoop)`
abbrev pub new_pool : ℕ → ThreadPool
new_pool base_loop = record {
  base_loop = base_loop;
  started = false;
  num_threads = 0;
  next = 0;
  loops = [];
}

-- `TcpServer(loop, listenAddr, nameArg)`
unfoldable pub create : ℕ → List ℕ → TcpServer
create base_loop name = record {
  name = name;
  pool = new_pool base_loop;
  started = false;
  listening = false;
  next_conn_id = 1;
  connections = [];
  left = [];
}

unfoldable pub set_thread_num : ℤ → TcpServer → Checked TcpServer
set_thread_num (negsuc n) s = abort
set_thread_num (pos n) s = ok (record s { pool = record s.pool { num_threads = n } })

-- `start()`, called in the loop's own thread or not: there `Acceptor::listen` runs at once.
unfoldable pub start : Bool → (ℕ → ℕ) → TcpServer → Checked TcpServer
unfolding start_pool
start in_loop start_loop s = do
  p ← if s.started then ok s.pool else start_pool start_loop s.pool
  let s' = record s { started = true; pool = p }
  let listen =
      if in_loop
      then record s' { listening = true }
      else record s' { left = s'.left ++ (listens ∷ []) }
  ok (if s'.listening then s' else listen)

abbrev pub leave : Task → TcpServer → TcpServer
leave t s = record s { left = s.left ++ (t ∷ []) }

-- `name_ + buf` after `snprintf(buf, sizeof(buf), "#%d", id)`.
abbrev pub conn_name : (ℕ → List ℕ) → List ℕ → ℕ → List ℕ
conn_name digits name id = name ++ (b'#' ∷ digits id)

abbrev pub established : (ℕ → List ℕ) → ℕ → ℕ → ThreadPool → ℕ → TcpServer → TcpServer
established digits fd io_loop pool next s =
    let conn : Conn = record {
      name = conn_name digits s.name s.next_conn_id;
      fd = fd;
      io_loop = io_loop;
    } in
    leave (connect_established conn) (record s {
      pool = pool;
      next_conn_id = next;
      connections = assign conn.name conn s.connections;
    })

-- `newConnection(sockfd, peerAddr)`
unfoldable pub new_connection : (ℕ → List ℕ) → ℕ → TcpServer → Checked TcpServer
unfolding get_next_loop
new_connection digits fd s = do
  next ← next_int s.next_conn_id
  r ← get_next_loop s.pool
  ok (established digits fd r.0 r.1 next s)

unfoldable pub remove_connection_in_loop : Conn → TcpServer → Checked TcpServer
remove_connection_in_loop conn s = do
  elim (find conn.name s.connections) [
    | none ↦ abort
    | some _ ↦
        ok (
          leave (connect_destroyed conn) (record s { connections = erase conn.name s.connections }))
  ]

-- `removeConnection`: the call runs at once in the server's own loop.
pub remove_connection : Bool → Conn → TcpServer → Checked TcpServer
unfolding remove_connection_in_loop
remove_connection in_loop conn s =
    if in_loop then remove_connection_in_loop conn s else ok (leave (removes conn) s)
