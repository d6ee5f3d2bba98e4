-- ===== src/Tests/Handshake.antt =====
-- The demo server at a concrete input.
use transfer_server.Prelude.{
  ℕ, none, ◌≡◌, refl, List, [], ◌∷◌, true, false, replicate, ok, arith, find, insert, assign, erase,
  find_byte, bytes_eq, nat_eq, bytes_instance,
}
use transfer_server.Register.{entry, my_register, my_unregister, get_value, add_value}
use transfer_server.Register.Refine.{empty, empty-Shows}
use transfer_server.CerPacket.{
  CerPacket, init, set_rand, set_cer, shift_all, encry, decry, get_packet_as_string,
}
use transfer_server.Buffer.{Buffer, readable_bytes, retrieve_all, retrieve_as_string}
use transfer_server.Demo.{
  Demo, Event, sent, removed, Op, connection, message, copy, c_string, copy_c_str, same_c_str,
  first_packet, second_packet, first_message, second_message, on_connection, on_message, run,
}
use transfer_server.Demo.Relay.{NobodyIn, run-Handshake}

abbrev server_packet : CerPacket
server_packet = record { rand = b'c' ∷ b'd' ∷ []; cer_length = 1; cer = b'1' ∷ [] }

abbrev start : Demo
start = record { ser_packet = server_packet; register_table = empty }

-- An input buffer with 20 bytes, all 0.
abbrev zeros : Buffer
zeros = record { bytes = replicate 28 0; reader = 8; writer = 28 }

abbrev address : List ℕ
address = b'h' ∷ []

-- A client comes, and goes through with blank packets until it is removed.
abbrev ops : List Op
ops =
    connection 5 true
    ∷ message 5 address ((5, address) ∷ []) zeros
    ∷ message 5 address ((5, address) ∷ []) zeros
    ∷ connection 5 false
    ∷ []

abbrev end : Demo × List Event
end = (
  record start { register_table = record empty { count = 1 } },
  sent 5 (b'c' ∷ b'd' ∷ b'1' ∷ []) ∷ sent 5 [] ∷ removed 5 ∷ [],
)

run-ops : run ops start ≡ ok end
unfolding run on_message on_connection first_message second_message first_packet second_packet copy
    c_string copy_c_str same_c_str my_register my_unregister get_value add_value entry init set_rand
    set_cer shift_all encry decry get_packet_as_string retrieve_as_string retrieve_all
    readable_bytes find insert assign erase find_byte bytes_eq
run-ops = refl

run-Handshake_example : NobodyIn start end
run-Handshake_example =
    run-Handshake ops start end b'c' (b'd' ∷ []) refl (omega arith)
      ((λ k. none), empty-Shows, λ k v e. ground (arith, e)) run-ops
