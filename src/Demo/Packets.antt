-- ===== src/Demo/Packets.antt =====
-- What a client's two packets of the handshake come to.
use transfer_server.Prelude.{
  ℕ, ◌≤◌, ◌≡◌, ◌≢◌, refl, sym, ap, ◌∙◌, Bool, true, false, List, [], ◌∷◌, ◌++◌, Checked, ok, length,
  take, drop, replicate, find_byte, bytes_eq, sub_size, bind-ok, arith,
}
use transfer_server.CerPacket.{CerPacket, init, set_rand, set_cer, encry, decry, blank, encry-decry}
use transfer_server.Demo.{
  copy, c_string, copy_c_str, same_c_str, first_packet, second_packet, new_packet,
}

copy-ok :
    (array source : List ℕ) (n pos : ℕ) (r : List ℕ)
    → copy array source n pos ≡ ok r
    → (pos ≤ length source)
      × (length (take n (drop pos source)) ≤ length array)
      × (r ≡ take n (drop pos source) ++ drop (length (take n (drop pos source))) array)
unfolding copy
copy-ok array source n pos r e = ground (arith, e)

c_string-ok :
    (array r : List ℕ)
    → c_string array ≡ ok r
    → (r ≡ take (find_byte 0 array) array) × (find_byte 0 array ≢ length array)
unfolding c_string
c_string-ok array r e = ground (arith, e)

-- A C string whose bytes are all 0 is empty.
blank-take : (xs : List ℕ) → blank (take (find_byte 0 xs) xs) ≡ true → find_byte 0 xs ≡ 0
unfolding blank find_byte
blank-take [] e = refl
blank-take (x ∷ xs) e = ground (arith, e)

-- Neither direction gives anything but the empty string, and that only from a blank one.
encry-ok :
    (random cer out : List ℕ)
    → encry (set_cer (set_rand (init new_packet) random) cer) ≡ ok out
    → (blank random ≡ true) × (out ≡ [])
unfolding init set_rand set_cer
encry-ok random cer out e =
    ground
      (arith, (encry-decry (record { rand = random; cer_length = length cer; cer = cer })).0, e)

decry-ok :
    (random cer out : List ℕ)
    → decry (set_cer (set_rand (init new_packet) random) cer) ≡ ok out
    → (blank random ≡ true) × (out ≡ [])
unfolding init set_rand set_cer
decry-ok random cer out e =
    ground
      (arith, (encry-decry (record { rand = random; cer_length = length cer; cer = cer })).1, e)

head_zero :
    (received rand random : List ℕ)
    → 20 ≤ length received
    → copy (replicate 20 0) received 20 0 ≡ ok rand
    → c_string rand ≡ ok random
    → blank random ≡ true
    → (rest : List ℕ) × (received ≡ 0 ∷ rest)
unfolding find_byte
head_zero [] rand random h e s b = ground (arith, h)
head_zero (x ∷ rest) rand random h e s b =
    let c = copy-ok (replicate 20 0) (x ∷ rest) 20 0 rand e in
    let z = blank-take rand (ap blank (sym (c_string-ok rand random s).0) ∙ b) in
    (rest, ground (arith, ap (find_byte 0) c.2, z))

-- The first packet goes through only if it has 20 bytes or more of which the first is 0, and then an
-- empty string is sent for it.
pub first_packet-ok :
    (received out : List ℕ)
    → first_packet received ≡ ok out
    → (20 ≤ length received) × ((rest : List ℕ) × (received ≡ 0 ∷ rest)) × (out ≡ [])
unfolding first_packet
first_packet-ok received out e =
    let (rand, e₁, r₁) = bind-ok (copy (replicate 20 0) received 20 0) _ out e in
    let (cer, e₂, r₂) =
      bind-ok (copy (replicate 20 0) received (sub_size (length received) 20) 20) _ out r₁ in
    let (random, e₃, r₃) = bind-ok (c_string rand) _ out r₂ in
    let (cert, e₄, r₄) = bind-ok (c_string cer) _ out r₃ in
    let (b, o) = encry-ok random cert out r₄ in
    let h = (copy-ok (replicate 20 0) received (sub_size (length received) 20) 20 cer e₂).0 in
    (h, head_zero received rand random h e₁ e₃ b, o)

-- The second packet, if it goes through, answers no server whose random string begins with a byte
-- other than 0.
pub second_packet-ok :
    (p : CerPacket) (received : List ℕ) (answer : Bool) (c : ℕ) (cs : List ℕ)
    → p.rand ≡ c ∷ cs
    → c ≢ 0
    → second_packet p received ≡ ok answer
    → answer ≡ false
unfolding second_packet same_c_str bytes_eq find_byte
second_packet-ok p received answer c cs r nz e =
    let (rand, e₁, r₁) = bind-ok (copy_c_str (replicate 21 0) received 20) _ answer e in
    let (random, e₂, r₂) = bind-ok (c_string rand) _ answer r₁ in
    let (info, e₃, r₃) =
      bind-ok (decry (set_cer (set_rand (init new_packet) random) p.cer)) _ answer r₂ in
    let o = (decry-ok random p.cer info e₃).1 in refused info answer o r₃
  where
    refused :
        (info : List ℕ) (answer : Bool)
        → info ≡ []
        → Checked.ok (same_c_str info p.rand) ≡ ok answer
        → answer ≡ false
    refused info answer o q = ground (arith, ap (λ xs. same_c_str xs p.rand) o, r, nz, q)
