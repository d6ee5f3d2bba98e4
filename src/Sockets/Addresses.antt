-- ===== src/Sockets/Addresses.antt =====
-- Addresses as text and back.
use transfer_server.Prelude.{
  ℕ, ◌≤◌, ◌<◌, ◌^◌, ◌≡◌, refl, ap, ap₂, ◌∙◌, List, [], ◌∷◌, ◌++◌, Option, some, arith, length,
  length-append, take, take_all,
}
use transfer_server.Sockets.{
  swap_16, swap_32, from_host_port, from_text, from_port, to_host_port, to_text, InetAddress,
  Report,
}

-- The order of the bytes of a port and of an address, turned twice, is as it was.
pub swap_16_twice : (n : ℕ) → n < 2 ^ 16 → swap_16 (swap_16 n) ≡ n
unfolding swap_16
swap_16_twice n h = omega arith

pub swap_32_twice : (n : ℕ) → n < 2 ^ 32 → swap_32 (swap_32 n) ≡ n
unfolding swap_32
swap_32_twice n h = omega arith

shown :
    (inet_ntop digits : ℕ → List ℕ) (a : InetAddress) (ip : List ℕ) (port : ℕ)
    → inet_ntop a.addr ≡ ip
    → a.port ≡ swap_16 port
    → port < 2 ^ 16
    → length ip ≤ 15
    → length (digits port) ≤ 5
    → to_text inet_ntop digits a ≡ ip ++ (b':' ∷ digits port)
unfolding to_text to_host_port
shown inet_ntop digits a ip port e p lt short few =
    let back : swap_16 a.port ≡ port = ap swap_16 p ∙ swap_16_twice port lt in
    ap₂ (λ (xs : List ℕ) n. take 31 (xs ++ (b':' ∷ digits n))) e back
    ∙ take_all 31 (ip ++ (b':' ∷ digits port))
        (omega (arith, length-append ip (b':' ∷ digits port)))

abbrev named : ℕ → ℕ → InetAddress
named addr port = record { family = 2; port = swap_16 port; addr = addr }

from_text-read :
    (inet_pton : List ℕ → Option ℕ) (ip : List ℕ) (addr port : ℕ)
    → inet_pton ip ≡ some addr
    → from_text inet_pton ip port ≡ (named addr port, [])
unfolding from_text from_host_port
from_text-read inet_pton ip addr port read = ground (arith, read)

-- An address made of a text and a port is shown as it was given, in full: where `inet_pton` reads the
-- text and `inet_ntop` writes it as it was, of 15 characters at most, and the port is below 65536, and
-- has 5 digits at most, `toHostPort()` gives the text, a colon and the digits of the port. An
-- address made of a port alone is shown as the text of the address 0, a colon and the digits.
pub from_text-to_text :
    (inet_pton : List ℕ → Option ℕ) (inet_ntop digits : ℕ → List ℕ) (ip : List ℕ) (addr port : ℕ)
    → inet_pton ip ≡ some addr
    → inet_ntop addr ≡ ip
    → length ip ≤ 15
    → length (inet_ntop 0) ≤ 15
    → port < 2 ^ 16
    → length (digits port) ≤ 5
    → (to_text inet_ntop digits (from_text inet_pton ip port).0 ≡ ip ++ (b':' ∷ digits port))
      × ((from_text inet_pton ip port).1 ≡ [])
      × (to_text inet_ntop digits (from_port port) ≡ inet_ntop 0 ++ (b':' ∷ digits port))
unfolding swap_32
from_text-to_text inet_pton inet_ntop digits ip addr port read written short short' lt few =
    let e = from_text-read inet_pton ip addr port read in
    let given = λ (r : InetAddress × List Report). to_text inet_ntop digits r.0 in
    (
      ap given e ∙ shown inet_ntop digits (named addr port) ip port written refl lt short few,
      ap (λ (r : InetAddress × List Report). r.1) e,
      shown inet_ntop digits (from_port port) (inet_ntop 0) port refl refl lt short' few,
    )
