-- ===== src/Tests/Logs.antt =====
-- The log stream and the packet at concrete inputs.
use transfer_server.Prelude.{ℕ, ◌<◌, ◌≡◌, All, length, List, [], ◌∷◌, arith, if◌then◌else◌}
use transfer_server.Prelude.Int.{pos, negsuc, ltb_ℤ}
use transfer_server.LogStream.{FixedBuffer, text, integer, put_all, convert}
use transfer_server.LogStream.Digits.{IsDigit, spelled, convert-spelled}
use transfer_server.CerPacket.{CerPacket}
use transfer_server.LogStream.Room.{Extends, put_all-Extends}

abbrev line : FixedBuffer
line = record { size = 40; text = b'a' ∷ [] }

put_all-Extends_example :
    Extends line
      (put_all line (text (b'n' ∷ b'=' ∷ []) ∷ integer (negsuc 41) ∷ integer (pos 7) ∷ []))
put_all-Extends_example =
    put_all-Extends (text (b'n' ∷ b'=' ∷ []) ∷ integer (negsuc 41) ∷ integer (pos 7) ∷ []) line
      (omega arith)

convert-spelled_example :
    (ds : List ℕ) × (convert (negsuc 41) ≡ (if ltb_ℤ (negsuc 41) (pos 0) then b'-' ∷ ds else ds))
    × (0 < length ds)
    × All IsDigit ds
    × (spelled 0 ds ≡ 42)
convert-spelled_example = convert-spelled (negsuc 41) (omega arith)

abbrev packet : CerPacket
packet = record { rand = b'a' ∷ []; cer_length = 0; cer = [] }
