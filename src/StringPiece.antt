-- ===== src/StringPiece.antt =====
-- include/StringPiece.h: a pointer into a string and a length. `ptr` is what stands from the pointer on;
-- a read behind that is `abort`. Lengths are not negative.
-- Of the `int` that `memcmp` returns only the sign is fixed: it is -1, 0 or 1 here.
pub mod Order
use transfer_server.Prelude.{
  ℕ, zero, suc, ◌+◌, ◌-◌, Bool, true, false, not, List, [], ◌∷◌, Checked, ok, abort, deref, ◌>>=◌,
  if◌then◌else◌, ltb, ◌==◌, length, take, drop, get_elem?,
}
use transfer_server.Prelude.Int.{ℤ, pos, negsuc}

pub record StringPiece : Type 0 where
  pub ptr : List ℕ
  pub size : ℕ

abbrev pub from_string : List ℕ → StringPiece
from_string str = record { ptr = str; size = length str }

-- `set(buffer, len)`
abbrev pub set_buffer : List ℕ → ℕ → StringPiece
set_buffer buffer len = record { ptr = buffer; size = len }

abbrev pub clear : StringPiece
clear = record { ptr = []; size = 0 }

abbrev pub empty : StringPiece → Bool
empty s = s.size == 0

-- `operator[]`
pub at_index : StringPiece → ℕ → Checked ℕ
at_index s i = deref (get_elem? s.ptr i)

-- `memcmp(p, q, n)`
unfoldable pub memcmp : ℕ → List ℕ → List ℕ → Checked ℤ
memcmp zero p q = ok (pos 0)
memcmp (suc n) [] q = abort
memcmp (suc n) (x ∷ p) [] = abort
memcmp (suc n) (x ∷ p) (y ∷ q) =
    let rest = memcmp n p q in
    if ltb x y then ok (negsuc 0) else (if ltb y x then ok (pos 1) else rest)

abbrev pub is_zero : ℤ → Bool
is_zero (pos n) = n == 0
is_zero (negsuc n) = false

-- `operator==`
unfoldable pub equal : StringPiece → StringPiece → Checked Bool
unfolding memcmp
equal s x =
    let compared = memcmp s.size s.ptr x.ptr >>= λ r. ok (is_zero r) in
    if s.size == x.size then compared else ok false

-- `operator!=`
pub different : StringPiece → StringPiece → Checked Bool
unfolding equal
different s x = equal s x >>= λ e. ok (not e)

-- What `compare` makes of the result of `memcmp` and the lengths.
abbrev pub by_length : ℕ → ℕ → ℤ → ℤ
by_length m k r =
    if is_zero r then (if ltb m k then negsuc 0 else (if ltb k m then pos 1 else r)) else r

unfoldable pub compare : StringPiece → StringPiece → Checked ℤ
unfolding memcmp
compare s x = memcmp (if ltb s.size x.size then s.size else x.size) s.ptr x.ptr >>= λ r.
    ok (by_length s.size x.size r)

-- `as_string` and `CopyToString`
abbrev pub as_string : StringPiece → List ℕ
as_string s = take s.size s.ptr

unfoldable pub starts_with : StringPiece → StringPiece → Checked Bool
unfolding memcmp
starts_with s x =
    let compared = memcmp x.size s.ptr x.ptr >>= λ r. ok (is_zero r) in
    if ltb s.size x.size then ok false else compared
