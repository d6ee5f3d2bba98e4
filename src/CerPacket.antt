-- ===== src/CerPacket.antt =====
-- include/CerPacket.h and src/CerPacket.cpp: the packet of the handshake. A write behind the end of a
-- string is undefined behaviour, here `abort`; a char is a byte and wraps around.
use transfer_server.Prelude.{
  ℕ, ◌+◌, ◌%◌, ◌≡◌, refl, Bool, true, ◌&&◌, List, [], ◌∷◌, ◌++◌, Checked, ok, abort, ◌>>=◌,
  if◌then◌else◌, ltb, ◌==◌, length, set, Bool-cases, inl, inr,
}

pub record CerPacket : Type 0 where
  pub rand : List ℕ
  pub cer_length : ℕ
  pub cer : List ℕ

unfoldable pub get_packet_as_string : CerPacket → List ℕ
get_packet_as_string p = p.rand ++ p.cer

unfoldable pub set_rand : CerPacket → List ℕ → CerPacket
set_rand p random = record p { rand = random }

unfoldable pub set_cer : CerPacket → List ℕ → CerPacket
set_cer p cer = record p { cer = cer; cer_length = length cer }

unfoldable pub init : CerPacket → CerPacket
init p = record { rand = []; cer_length = 0; cer = [] }

-- `result[cnt] = c`
abbrev pub set_char : List ℕ → ℕ → ℕ → Checked (List ℕ)
set_char result cnt c = if ltb cnt (length result) then ok (set result cnt c) else abort

-- The loop over `rand_`.
unfoldable pub shift_all : (ℕ → ℕ) → List ℕ → ℕ → List ℕ → Checked (List ℕ)
shift_all shift [] cnt result = ok result
shift_all shift (i ∷ rest) cnt result =
    let skipped = shift_all shift rest cnt result in
    let written = set_char result cnt (shift i) >>= λ r. shift_all shift rest (cnt + 1) r in
    if i == 0 then skipped else written

unfoldable pub encry : CerPacket → Checked (List ℕ)
unfolding shift_all
encry p = shift_all (λ i. (i + 1) % 256) p.rand 0 []

unfoldable pub decry : CerPacket → Checked (List ℕ)
unfolding shift_all
decry p = shift_all (λ i. (i + 255) % 256) p.rand 0 []

unfoldable pub blank : List ℕ → Bool
blank [] = true
blank (i ∷ rest) = i == 0 && blank rest

shift_all_lem :
    (shift : ℕ → ℕ) (xs : List ℕ) → shift_all shift xs 0 [] ≡ (if blank xs then ok [] else abort)
unfolding shift_all blank
shift_all_lem shift [] = refl
shift_all_lem shift (i ∷ rest) = elim (Bool-cases (i == 0)) [
  | inl z ↦ rw z (shift_all_lem shift rest)
  | inr z ↦ rw z refl
]

-- `encry` and `decry` write into an empty string: each goes out of bounds unless every byte of the
-- random string is 0, and answers with the empty string then.
pub encry-decry :
    (p : CerPacket)
    → (encry p ≡ (if blank p.rand then ok [] else abort))
      × (decry p ≡ (if blank p.rand then ok [] else abort))
unfolding encry decry
encry-decry p =
    (shift_all_lem (λ i. (i + 1) % 256) p.rand, shift_all_lem (λ i. (i + 255) % 256) p.rand)
