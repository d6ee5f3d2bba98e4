-- ===== src/TcpConnection.antt =====
-- include/TcpConnection.h and src/TcpConnection.cpp: one connection in its loop's thread. Of the
-- socket the state holds what the kernel has taken to send and whether the sending side is shut
-- down; `notices` are the calls that the connection makes outwards, in their order: the updates of
-- its channel in the loop (Poller), the callbacks, and what it leaves to the loop to run.
-- `assertInLoopThread` only writes to the log (EventLoop).
pub mod Send
pub mod Write
pub mod Stream
pub mod Made
pub mod Lifecycle
use transfer_server.Prelude.{
  ℕ, ◌+◌, ◌-◌, Bool, true, false, not, ◌&&◌, List, [], ◌∷◌, ◌++◌, Option, none, some, Checked, ok,
  abort, assert, ◌>>=◌, ◌>>◌, if◌then◌else◌, ltb, ◌==◌, length, take, drop, min, find_byte,
}
use transfer_server.Buffer
use transfer_server.Channel
use transfer_server.Buffer.{
  Buffer, ReadOutcome, got, failed, range, readable_bytes, append, retrieve, read_fd,
}
use transfer_server.Channel.{
  Events, Channel, is_writing, enable_reading, enable_writing, disable_writing, disable_all,
}

pub data ConnState : Type 0 where
  connecting connected disconnecting disconnected : ConnState

pub data Notice : Type 0 where
  updates : Events → Notice
  removes_channel connection_callback message_callback close_callback : Notice
  write_complete_queued : Notice
  send_queued : List ℕ → Notice
  shutdown_queued : Notice

pub record TcpConnection : Type 0 where
  pub state : ConnState
  pub channel : Channel
  pub input : Buffer
  pub output : Buffer
  pub sent : List ℕ
  pub write_closed : Bool
  pub has_write_complete : Bool
  pub notices : List Notice

-- The constructor, for `setWriteCompleteCallback` called or not: the channel of the socket has all four
-- callbacks.
unfoldable pub create : Bool → ℕ → Checked TcpConnection
create has_write_complete fd = do
  input ← Buffer.create
  output ← Buffer.create
  ok (record {
    state = connecting;
    channel = record (Channel.create fd) {
      has_read = true;
      has_write = true;
      has_close = true;
      has_error = true;
    };
    input = input;
    output = output;
    sent = [];
    write_closed = false;
    has_write_complete = has_write_complete;
    notices = [];
  })

abbrev pub same_state : ConnState → ConnState → Bool
same_state connecting connecting = true
same_state connected connected = true
same_state disconnecting disconnecting = true
same_state disconnected disconnected = true
same_state _ _ = false

abbrev pub notify : Notice → TcpConnection → TcpConnection
notify n c = record c { notices = c.notices ++ (n ∷ []) }

-- A change of the mask, which `Channel::update` hands on to the loop.
abbrev pub set_interest : (Channel → Channel) → TcpConnection → TcpConnection
set_interest f c =
    let channel = f c.channel in notify (updates channel.events) (record c { channel = channel })

-- `write(2)`: an error, or how many bytes the kernel has room for. It takes no more than it is given.
pub data WriteOutcome : Type 0 where
  write_failed : WriteOutcome
  accepts : ℕ → WriteOutcome

-- The bytes taken are those at the front.
abbrev pub transmit : ℕ → List ℕ → TcpConnection → TcpConnection
transmit n xs c = record c { sent = c.sent ++ take n xs }

abbrev pub up : TcpConnection → Bool
up c = if same_state c.state connected then true else same_state c.state disconnecting

unfoldable pub connect_established : TcpConnection → Checked TcpConnection
connect_established c = do
  assert (same_state c.state connecting)
  ok (notify connection_callback (set_interest enable_reading (record c { state = connected })))

pub connect_destroyed : TcpConnection → Checked TcpConnection
connect_destroyed c = do
  assert (up c)
  let c₁ = set_interest disable_all (record c { state = disconnected })
  ok (notify removes_channel (notify connection_callback c₁))

unfoldable pub handle_close : TcpConnection → Checked TcpConnection
handle_close c = do assert (up c); ok (notify close_callback (set_interest disable_all c))

-- What `readv` gave decides: bytes, the end of the stream, or an error, which is only logged.
pub handle_read : ReadOutcome → TcpConnection → Checked TcpConnection
unfolding handle_close
handle_read o c = do
  r ← read_fd c.input o
  let c' = record c { input = r.1 }
  elim o [
    | got xs ↦ if length xs == 0 then handle_close c' else ok (notify message_callback c')
    | failed _ ↦ ok c'
  ]

pub shutdown_in_loop : TcpConnection → TcpConnection
shutdown_in_loop c = if is_writing c.channel then c else record c { write_closed = true }

-- `shutdown()`: the functor runs at once in the loop's thread.
pub shutdown : Bool → TcpConnection → TcpConnection
unfolding shutdown_in_loop
shutdown in_loop c =
    let c' = record c { state = disconnecting } in
    if same_state c.state connected
    then if in_loop then shutdown_in_loop c' else notify shutdown_queued c'
    else c

abbrev pub complete : TcpConnection → TcpConnection
complete c = if c.has_write_complete then notify write_complete_queued c else c

-- After a write that took `n` bytes of the output buffer.
pub written : ℕ → TcpConnection → Checked TcpConnection
unfolding shutdown_in_loop
written n c = do
  b ← retrieve c.output n
  let c₁ = record c { output = b }
  let c₂ = complete (set_interest disable_writing c₁)
  ok (
      if readable_bytes b == 0
      then if same_state c₂.state disconnecting then shutdown_in_loop c₂ else c₂
      else c₁)

pub handle_write : WriteOutcome → TcpConnection → Checked TcpConnection
unfolding written
handle_write o c = do
  let xs = range c.output.reader c.output.writer c.output.bytes
  if not (is_writing c.channel) then ok c else elim o [
    | write_failed ↦ ok c
    | accepts room ↦
        let n = min room (length xs) in if n == 0 then ok c else written n (transmit n xs c)
  ]

abbrev pub queued_output : Buffer → TcpConnection → TcpConnection
queued_output b c =
    let c₁ = record c { output = b } in
    if is_writing c.channel then c₁ else set_interest enable_writing c₁

-- What was not written goes to the output buffer.
pub keep_rest : ℕ → List ℕ → TcpConnection → Checked TcpConnection
keep_rest n message c =
    let kept = append c.output (drop n message) >>= λ b. ok (queued_output b c) in
    if ltb n (length message) then kept else ok c

-- `sendInLoop`: the direct write is given `strlen(message.data())` bytes, those before the first 0;
-- a write that fails stops at `assert(nwrote >= 0)`.
pub send_in_loop : List ℕ → WriteOutcome → TcpConnection → Checked TcpConnection
unfolding keep_rest
send_in_loop message o c = do
  if readable_bytes c.output == 0 && not (is_writing c.channel)
      then elim o [
        | write_failed ↦ abort
        | accepts room ↦
            let n = min room (find_byte 0 message) in
            let c₁ = transmit n message c in
            keep_rest n message (if ltb n (length message) then c₁ else complete c₁)
      ]
      else keep_rest 0 message c

pub send : Bool → List ℕ → WriteOutcome → TcpConnection → Checked TcpConnection
unfolding send_in_loop
send in_loop message o c =
    if same_state c.state connected
    then if in_loop then send_in_loop message o c else ok (notify (send_queued message) c)
    else ok c
