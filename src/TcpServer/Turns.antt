-- ===== src/TcpServer/Turns.antt =====
-- The calls that the server leaves to the loops, carried out on the connections themselves. All calls
-- for one connection go to one loop, which carries them out in their order.
pub mod Played
use transfer_server.Prelude.{
  ℕ, ◌+◌, ◌<◌, ◌≡◌, ◌≢◌, refl, sym, ap, ◌∙◌, Bool, true, false, List, [], ◌∷◌, ◌++◌, Option, none,
  some, Checked, ok, if◌then◌else◌, ◌>>=◌, arith, find, assign, erase, find-assign, find-erase,
  bytes_instance, bytes_eq, bytes_eq_iff, Option-cases, Bool-cases, inl, inr, bind-ok, subst,
}
use transfer_server.Register.{next_int}
use transfer_server.TcpConnection
use transfer_server.TcpConnection.{
  TcpConnection, ConnState, same_state, connected, disconnecting, disconnected,
}
use transfer_server.TcpConnection.Made.{
  made, create-made, set_up, torn_down, connect_established-up, connect_destroyed-down,
}
use transfer_server.TcpServer.{
  ThreadPool, Conn, Task, listens, connect_established, connect_destroyed, removes, TcpServer,
  conn_name, established, leave, get_next_loop, new_connection, remove_connection_in_loop,
}
use transfer_server.TcpServer.Names.{conn_name-injective}

-- The connections that have had a turn, by name. One that has had none is as the constructor makes it.
abbrev pub Turns : Type 0
Turns = List (List ℕ × TcpConnection)

unfoldable pub connection_of : Bool → Conn → Turns → Checked TcpConnection
connection_of has_write_complete conn m = elim (find conn.name m) [
  | none ↦ TcpConnection.create has_write_complete conn.fd
  | some c ↦ ok c
]

unfoldable pub turn : Bool → Task → Turns → Checked Turns
unfolding connection_of
turn h listens m = ok m
turn h (removes _) m = ok m
turn h (connect_established conn) m = do
  c ← connection_of h conn m
  c' ← TcpConnection.connect_established c
  ok (assign conn.name c' m)
turn h (connect_destroyed conn) m = do
  c ← connection_of h conn m
  c' ← TcpConnection.connect_destroyed c
  ok (assign conn.name c' m)

unfoldable pub turns : Bool → List Task → Turns → Checked Turns
unfolding turn
turns h [] m = ok m
turns h (t ∷ ts) m = turn h t m >>= λ m'. turns h ts m'

-- A descriptor is accepted, or a connection asks for its removal, in the server's loop.
pub data Op : Type 0 where
  accepts : ℕ → Op
  closes : Conn → Op

unfoldable pub step : (ℕ → List ℕ) → Op → TcpServer → Checked TcpServer
step digits (accepts fd) s = new_connection digits fd s
step digits (closes conn) s = remove_connection_in_loop conn s

unfoldable pub run : (ℕ → List ℕ) → List Op → TcpServer → Checked TcpServer
unfolding step
run digits [] s = ok s
run digits (op ∷ ops) s = step digits op s >>= λ s'. run digits ops s'
