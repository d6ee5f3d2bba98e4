-- ===== src/TcpConnection/Made.antt =====
-- What the constructor makes, and the two changes of state that the server asks for.
use transfer_server.Prelude.{ℕ, ◌≡◌, refl, ap, Bool, true, false, [], none, ok, inl, arith}
use transfer_server.Buffer.Space.{new_buffer, create-new, new_buffer-IsValid}
use transfer_server.Channel
use transfer_server.Channel.{enable_reading, disable_all}
use transfer_server.TcpConnection.{
  removes_channel, connection_callback, connecting, connected, disconnected, TcpConnection, up,
  notify, set_interest, create, connect_established, connect_destroyed,
}
use transfer_server.TcpConnection.Send.{Inv}

abbrev pub made : Bool → ℕ → TcpConnection
made has_write_complete fd = record {
  state = connecting;
  channel = record (Channel.create fd) {
    has_read = true;
    has_write = true;
    has_close = true;
    has_error = true;
  };
  input = new_buffer;
  output = new_buffer;
  sent = [];
  write_closed = false;
  has_write_complete = has_write_complete;
  notices = [];
}

pub create-made :
    (has_write_complete : Bool) (fd : ℕ)
    → create has_write_complete fd ≡ ok (made has_write_complete fd)
unfolding create
create-made has_write_complete fd = rw create-new refl

-- A new connection meets the invariant of its output buffer.
pub made-Inv : (has_write_complete : Bool) (fd : ℕ) → Inv (made has_write_complete fd)
unfolding Channel.create
made-Inv has_write_complete fd = record {
  valid = new_buffer-IsValid;
  waiting = refl;
  closing = inl refl;
}

pub record IsNew (fd : ℕ) (c : TcpConnection) : Type 0 where
  pub state : c.state ≡ connecting
  pub fresh : c.notices ≡ []
  pub named : c.channel.fd ≡ fd
  pub index : c.channel.index ≡ none

pub create-IsNew :
    (has_write_complete : Bool) (fd : ℕ) (c : TcpConnection)
    → create has_write_complete fd ≡ ok c
    → IsNew fd c
unfolding Channel.create
create-IsNew has_write_complete fd c e =
    let q : c ≡ made has_write_complete fd = cc (create-made has_write_complete fd, e) in
    record {
      state = ap (λ d. d.state) q;
      fresh = ap (λ d. d.notices) q;
      named = ap (λ d. d.channel.fd) q;
      index = ap (λ d. d.channel.index) q;
    }

-- The connection after `connectEstablished`, and after `connectDestroyed`.
abbrev pub set_up : TcpConnection → TcpConnection
set_up c = notify connection_callback (set_interest enable_reading (record c { state = connected }))

abbrev pub torn_down : TcpConnection → TcpConnection
torn_down c =
    notify removes_channel
      (notify connection_callback (set_interest disable_all (record c { state = disconnected })))

pub connect_established-up :
    (c : TcpConnection) → c.state ≡ connecting → connect_established c ≡ ok (set_up c)
unfolding connect_established
connect_established-up c s = ground (arith, s)

pub connect_destroyed-down :
    (c : TcpConnection) → up c ≡ true → connect_destroyed c ≡ ok (torn_down c)
unfolding connect_destroyed
connect_destroyed-down c s = ground (arith, s)
