-- ===== src/Demo.antt =====
-- src/test_multithreads.cc: the server's callbacks, which take a client through a handshake and pass
-- messages on. `char` arrays are lists of bytes; `memcpy`, `std::string::copy` and the use of an array as
-- a C string are `abort` where they leave the array. What a callback does to a connection
-- (TcpConnection, TcpServer) is an event. `printf` is not modelled.
pub mod Packets
pub mod Relay
use transfer_server.Prelude.{
  ℕ, ◌+◌, Bool, true, false, List, [], ◌∷◌, ◌++◌, map, Checked, ok, abort, ◌>>=◌, if◌then◌else◌,
  ltb, ◌==◌, length, take, drop, replicate, find_byte, bytes_eq, sub_size,
}
use transfer_server.Register.{RegisterTable, my_register, my_unregister, get_value, add_value}
use transfer_server.CerPacket.{
  CerPacket, get_packet_as_string, init, set_rand, set_cer, encry, decry,
}
use transfer_server.Buffer.{Buffer, retrieve_as_string}

-- `connection->send(message)` and `g_server->removeConnection(connection)`.
pub data Event : Type 0 where
  sent : ℕ → List ℕ → Event
  removed : ℕ → Event

pub record Demo : Type 0 where
  pub ser_packet : CerPacket
  pub register_table : RegisterTable

-- What a callback leaves: the state, the input buffer of the connection, and its events.
abbrev pub Answer : Type 0
Answer = Demo × Buffer × List Event

-- `CerPacket cliPacket`
abbrev pub new_packet : CerPacket
new_packet = record { rand = []; cer_length = 0; cer = [] }

-- `source.copy(array, n, pos)`
unfoldable pub copy : List ℕ → List ℕ → ℕ → ℕ → Checked (List ℕ)
copy array source n pos =
    let part = take n (drop pos source) in
    if ltb (length source) pos
    then abort
    else (if ltb (length array) (length part) then abort else ok (part ++ drop (length part) array))

-- `std::string(array)`
unfoldable pub c_string : List ℕ → Checked (List ℕ)
c_string array = let n = find_byte 0 array in if n == length array then abort else ok (take n array)

-- `memcpy(array, source.c_str(), n)`
unfoldable pub copy_c_str : List ℕ → List ℕ → ℕ → Checked (List ℕ)
copy_c_str array source n =
    if ltb (length source + 1) n
    then abort
    else (if ltb (length array) n then abort else ok (take n (source ++ (0 ∷ [])) ++ drop n array))

-- `strcmp(s.c_str(), t.c_str()) == 0`
unfoldable pub same_c_str : List ℕ → List ℕ → Bool
same_c_str s t = bytes_eq (take (find_byte 0 s) s) (take (find_byte 0 t) t)

-- What is sent for the first packet.
unfoldable pub first_packet : List ℕ → Checked (List ℕ)
unfolding copy c_string
first_packet received = do
  tmp_rand ← copy (replicate 20 0) received 20 0
  tmp_cer ← copy (replicate 20 0) received (sub_size (length received) 20) 20
  random ← c_string tmp_rand
  cer ← c_string tmp_cer
  encry (set_cer (set_rand (init new_packet) random) cer)

-- Whether the second packet answers the server's.
unfoldable pub second_packet : CerPacket → List ℕ → Checked Bool
unfolding copy_c_str c_string same_c_str
second_packet ser_packet received = do
  tmp_rand ← copy_c_str (replicate 21 0) received 20
  random ← c_string tmp_rand
  info ← decry (set_cer (set_rand (init new_packet) random) ser_packet.cer)
  ok (same_c_str info ser_packet.rand)

-- The loop over the connections: those that are not registered are removed, the others get the message.
unfoldable pub relay : RegisterTable → ℕ → List ℕ → List (ℕ × List ℕ) → List Event
relay t conn message [] = []
relay t conn message ((other, str) ∷ connections) =
    let rest = relay t conn message connections in
    if other == conn
    then rest
    else ((if get_value t str == 0 then removed other else sent other message) ∷ rest)

-- `onConnection`
unfoldable pub on_connection : Demo → ℕ → Bool → List Event
on_connection s conn true = sent conn (get_packet_as_string s.ser_packet) ∷ []
on_connection s conn false = []

-- `onMessage` while the client's value is 1.
unfoldable pub first_message : Demo → RegisterTable → ℕ → List ℕ → Buffer → Checked Answer
unfolding first_packet
first_message s t conn str buf = do
  t' ← add_value t str
  let (received, buf') = retrieve_as_string buf
  info ← first_packet received
  ok (record s { register_table = t' }, buf', sent conn info ∷ [])

-- `onMessage` while it is 2.
unfoldable pub second_message : Demo → RegisterTable → ℕ → List ℕ → Buffer → Checked Answer
unfolding second_packet
second_message s t conn str buf = do
  t' ← add_value t str
  let (received, buf') = retrieve_as_string buf
  success ← second_packet s.ser_packet received
  let let_in =
      encry new_packet >>= λ info. ok (record s { register_table = t' }, buf', sent conn info ∷ [])
  let sent_away = ok (record s { register_table = my_unregister t' str }, buf', removed conn ∷ [])
  if success then let_in else sent_away

-- `onMessage`: `str` is the connection's address, and `connections` what the server's map holds.
unfoldable pub on_message : Demo → ℕ → List ℕ → List (ℕ × List ℕ) → Buffer → Checked Answer
unfolding first_message second_message relay
on_message s conn str connections buf = do
  t ← my_register s.register_table str
  let (message, buf') = retrieve_as_string buf
  let passed_on = ok (record s { register_table = t }, buf', relay t conn message connections)
  let later = if get_value t str == 2 then second_message s t conn str buf else passed_on
  if get_value t str == 1 then first_message s t conn str buf else later

-- A callback of a connection, with the arguments that the server gives it.
pub data Op : Type 0 where
  connection : ℕ → Bool → Op
  message : ℕ → List ℕ → List (ℕ × List ℕ) → Buffer → Op

-- The events of a sequence of callbacks.
unfoldable pub run : List Op → Demo → Checked (Demo × List Event)
unfolding on_connection on_message
run [] s = ok (s, [])
run (connection conn up ∷ ops) s =
    run ops s >>= λ (s', events). ok (s', on_connection s conn up ++ events)
run (message conn str connections buf ∷ ops) s =
    on_message s conn str connections buf >>= λ (s₁, buf', events).
    run ops s₁ >>= λ (s', rest). ok (s', events ++ rest)
