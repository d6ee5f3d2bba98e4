-- ===== src/TcpConnection/Lifecycle/Safe.antt =====
-- No call of a connection aborts, while its buffers have room and no write of `sendInLoop` fails.
use transfer_server.Prelude.{
  ℕ, ◌+◌, ◌≤◌, ◌≡◌, refl, ap, ◌∙◌, Bool, true, false, not, List, [], ◌∷◌, All, All-append, Checked,
  ok, assert, ◌>>=◌, min, length, if◌then◌else◌, ◌==◌, arith,
}
use transfer_server.Buffer.{Buffer, retrieve, readable_bytes}
use transfer_server.Buffer.Space.{IsValid, contents}
use transfer_server.Buffer.Contents.{retrieve_lem, retrieve-Holds}
use transfer_server.Channel.{Channel, is_writing, disable_writing, disable_all}
use transfer_server.TcpConnection.{
  Notice, updates, close_callback, write_complete_queued, send_queued, shutdown_queued, connected,
  disconnecting, TcpConnection, same_state, up, notify, set_interest, write_failed, accepts,
  WriteOutcome, complete, transmit, handle_close, shutdown_in_loop, shutdown, written, handle_write,
}

-- A message left to the loop has `size` bytes at most.
abbrev pub IsShort : ℕ → Notice → Type 0
IsShort size (send_queued message) = length message ≤ size
IsShort size _ = Unit {0}

-- The connection is up, and its buffers are valid and end at `limit` at most.
pub record IsSafe (size limit : ℕ) (c : TcpConnection) : Type 0 where
  pub alive : up c ≡ true
  pub input_valid : IsValid c.input
  pub input_end : c.input.writer ≤ limit
  pub output_valid : IsValid c.output
  pub output_end : c.output.writer ≤ limit
  pub short : All (IsShort size) c.notices

-- The call goes through, to such a connection.
abbrev pub Goes : ℕ → ℕ → Checked TcpConnection → Type 0
Goes size limit m = (c : TcpConnection) × (m ≡ ok c) × IsSafe size limit c

pub if_Goes :
    (size limit : ℕ) (b : Bool) (x y : Checked TcpConnection)
    → (b ≡ true → Goes size limit x)
    → (b ≡ false → Goes size limit y)
    → Goes size limit (if b then x else y)
if_Goes size limit true x y g h = g refl
if_Goes size limit false x y g h = h refl

pub if_IsSafe :
    (size limit : ℕ) (b : Bool) (x y : TcpConnection)
    → IsSafe size limit x
    → IsSafe size limit y
    → IsSafe size limit (if b then x else y)
if_IsSafe size limit true x y g h = g
if_IsSafe size limit false x y g h = h

pub bind_Goes :
    {A : Type 0} (size limit : ℕ) (m : Checked A) (f : A → Checked TcpConnection) (a : A)
    → m ≡ ok a
    → Goes size limit (f a)
    → Goes size limit (m >>= f)
bind_Goes size limit m f a e (c, g, s) = (c, ap (λ n. n >>= f) e ∙ g, s)

module _ (size limit : ℕ) where
  pub done : (c : TcpConnection) → IsSafe size limit c → Goes size limit (ok c)
  done c s = (c, refl, s)

  pub notify-IsSafe :
      (c : TcpConnection) (n : Notice)
      → IsShort size n
      → IsSafe size limit c
      → IsSafe size limit (notify n c)
  notify-IsSafe c n h s = record {
    alive = s.alive;
    input_valid = s.input_valid;
    input_end = s.input_end;
    output_valid = s.output_valid;
    output_end = s.output_end;
    short = All-append (IsShort size) c.notices (n ∷ []) s.short (h, tt);
  }

  with_channel :
      (c : TcpConnection) (channel : Channel)
      → IsSafe size limit c
      → IsSafe size limit (record c { channel = channel })
  with_channel c channel s = record {
    alive = s.alive;
    input_valid = s.input_valid;
    input_end = s.input_end;
    output_valid = s.output_valid;
    output_end = s.output_end;
    short = s.short;
  }

  pub set-IsSafe :
      (c : TcpConnection) (f : Channel → Channel)
      → IsSafe size limit c
      → IsSafe size limit (set_interest f c)
  set-IsSafe c f s =
      let channel = f c.channel in
      notify-IsSafe (record c { channel = channel }) (updates channel.events) tt
        (with_channel c channel s)

  pub with_output :
      (c : TcpConnection) (b : Buffer)
      → IsValid b
      → b.writer ≤ limit
      → IsSafe size limit c
      → IsSafe size limit (record c { output = b })
  with_output c b v le s = record {
    alive = s.alive;
    input_valid = s.input_valid;
    input_end = s.input_end;
    output_valid = v;
    output_end = le;
    short = s.short;
  }

  pub with_sent :
      (c : TcpConnection) (sent : List ℕ)
      → IsSafe size limit c
      → IsSafe size limit (record c { sent = sent })
  with_sent c sent s = record {
    alive = s.alive;
    input_valid = s.input_valid;
    input_end = s.input_end;
    output_valid = s.output_valid;
    output_end = s.output_end;
    short = s.short;
  }

  pub complete-IsSafe : (c : TcpConnection) → IsSafe size limit c → IsSafe size limit (complete c)
  complete-IsSafe c s =
      if_IsSafe size limit c.has_write_complete (notify write_complete_queued c) c
        (notify-IsSafe c write_complete_queued tt s) s

  pub shutdown_in_loop-IsSafe :
      (c : TcpConnection) → IsSafe size limit c → IsSafe size limit (shutdown_in_loop c)
  unfolding shutdown_in_loop
  shutdown_in_loop-IsSafe c s =
      if_IsSafe size limit (is_writing c.channel) c (record c { write_closed = true }) s
        (record {
          alive = s.alive;
          input_valid = s.input_valid;
          input_end = s.input_end;
          output_valid = s.output_valid;
          output_end = s.output_end;
          short = s.short;
        })

  pub shutdown-IsSafe :
      (c : TcpConnection) (in_loop : Bool)
      → IsSafe size limit c
      → IsSafe size limit (shutdown in_loop c)
  unfolding shutdown
  shutdown-IsSafe c in_loop s =
      let d = record c { state = disconnecting } in
      let s' : IsSafe size limit d = record {
        alive = refl;
        input_valid = s.input_valid;
        input_end = s.input_end;
        output_valid = s.output_valid;
        output_end = s.output_end;
        short = s.short;
      } in
      if_IsSafe size limit (same_state c.state connected) _ c
        (if_IsSafe size limit in_loop (shutdown_in_loop d) (notify shutdown_queued d)
          (shutdown_in_loop-IsSafe d s') (notify-IsSafe d shutdown_queued tt s'))
        s

  pub close-Goes : (c : TcpConnection) → IsSafe size limit c → Goes size limit (handle_close c)
  unfolding handle_close
  close-Goes c s =
      let c' = notify close_callback (set_interest disable_all c) in
      (
        c',
        ap (λ b. assert b >>= λ _. ok c') s.alive,
        notify-IsSafe (set_interest disable_all c) close_callback tt (set-IsSafe c disable_all s),
      )

  written-Goes :
      (c : TcpConnection) (n : ℕ)
      → n ≤ length (contents c.output)
      → IsSafe size limit c
      → Goes size limit (written n c)
  unfolding written
  written-Goes c n le s =
      let b = record c.output { reader = c.output.reader + n } in
      let h = retrieve-Holds c.output n s.output_valid le in
      let c₁ = record c { output = b } in
      let s₁ = with_output c b h.valid s.output_end s in
      let c₂ = complete (set_interest disable_writing c₁) in
      let s₂ =
        complete-IsSafe (set_interest disable_writing c₁) (set-IsSafe c₁ disable_writing s₁) in
      bind_Goes size limit (retrieve c.output n) _ b
        (retrieve_lem c.output n s.output_valid ∙ ground arith)
        (done _ (
          if_IsSafe size limit (readable_bytes b == 0) _ c₁
            (if_IsSafe size limit (same_state c₂.state disconnecting) (shutdown_in_loop c₂) c₂
              (shutdown_in_loop-IsSafe c₂ s₂) s₂)
            s₁))

  pub write-Goes :
      (c : TcpConnection) (o : WriteOutcome)
      → IsSafe size limit c
      → Goes size limit (handle_write o c)
  unfolding handle_write
  write-Goes c write_failed s =
      if_Goes size limit (not (is_writing c.channel)) (ok c) (ok c) (λ _. done c s) (λ _. done c s)
  write-Goes c (accepts room) s =
      let xs = contents c.output in
      let n = min room (length xs) in
      if_Goes size limit (not (is_writing c.channel)) (ok c) _ (λ _. done c s)
        λ _.
          if_Goes size limit (n == 0) (ok c) _ (λ _. done c s)
            λ _.
              written-Goes (transmit n xs c) n (omega arith) (with_sent c (transmit n xs c).sent s)

-- The same with more room.
pub raise :
    (size limit more : ℕ) (c : TcpConnection) → IsSafe size limit c → IsSafe size (limit + more) c
raise size limit more c s = record {
  alive = s.alive;
  input_valid = s.input_valid;
  input_end = omega (arith, s.input_end);
  output_valid = s.output_valid;
  output_end = omega (arith, s.output_end);
  short = s.short;
}

pub raised :
    (size limit more : ℕ) (m : Checked TcpConnection)
    → Goes size limit m
    → Goes size (limit + more) m
raised size limit more m (c, e, s) = (c, e, raise size limit more c s)
