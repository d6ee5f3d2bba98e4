-- ===== src/Prelude/Bytes.antt =====
-- Strings of bytes: the Boolean equality of `std::string`, and `std::find` of a byte.
use Prim.Native.Nat.{ℕ, suc, ◌≤◌}
use mathlib.Core.Path.{◌≡◌, refl}
use mathlib.Core.Logic.{◌↔◌}
use mathlib.Core.Bool.{Bool, true, false, ◌&&◌}
use mathlib.Core.List.{List, [], ◌∷◌, ◌++◌}
use native.Mathlib.Omega.{arith}
use transfer_server.Prelude.Tests.{◌==◌, if◌then◌else◌}
use transfer_server.Prelude.Lists.{length}
use transfer_server.Prelude.Predicates.{Free}

unfoldable pub bytes_eq : List ℕ → List ℕ → Bool
bytes_eq [] [] = true
bytes_eq [] (y ∷ ys) = false
bytes_eq (x ∷ xs) [] = false
bytes_eq (x ∷ xs) (y ∷ ys) = x == y && bytes_eq xs ys

pub bytes_eq_sound : (xs ys : List ℕ) → bytes_eq xs ys ≡ true → xs ≡ ys
unfolding bytes_eq
bytes_eq_sound [] [] h = refl
bytes_eq_sound [] (y ∷ ys) h = cc
bytes_eq_sound (x ∷ xs) [] h = cc
bytes_eq_sound (x ∷ xs) (y ∷ ys) h = ground (arith, bytes_eq_sound xs ys)

pub bytes_eq_self : (xs : List ℕ) → bytes_eq xs xs ≡ true
unfolding bytes_eq
bytes_eq_self [] = refl
bytes_eq_self (x ∷ xs) = ground (arith, bytes_eq_self xs)

pub bytes_eq_iff : (xs ys : List ℕ) → (bytes_eq xs ys ≡ true) ↔ (xs ≡ ys)
bytes_eq_iff xs ys = (bytes_eq_sound xs ys, λ e. rw e (bytes_eq_self ys))

-- `std::find`: the offset of the first `c`, or the length.
unfoldable pub find_byte : ℕ → List ℕ → ℕ
find_byte c [] = 0
find_byte c (x ∷ xs) = if x == c then 0 else suc (find_byte c xs)

pub find_byte-le : (c : ℕ) (xs : List ℕ) → find_byte c xs ≤ length xs
unfolding find_byte
find_byte-le c [] = omega arith
find_byte-le c (x ∷ xs) = ground (arith, find_byte-le c xs)

pub find_byte-append :
    (c : ℕ) (xs ys : List ℕ) → Free c xs → find_byte c (xs ++ (c ∷ ys)) ≡ length xs
unfolding find_byte
find_byte-append c [] ys h = ground arith
find_byte-append c (x ∷ xs) ys h = ground (arith, find_byte-append c xs ys)

-- A string free of the byte is searched in vain.
pub find_byte-Free : (c : ℕ) (xs : List ℕ) → Free c xs → find_byte c xs ≡ length xs
unfolding find_byte
find_byte-Free c [] h = refl
find_byte-Free c (x ∷ xs) h = ground (arith, find_byte-Free c xs)
