-- ===== src/LogStream.antt =====
-- include/LogStream.h and src/LogStream.cpp: the buffer of a log line and the digits of integers.
-- Of a `FixedBuffer<SIZE>` the model holds SIZE and the bytes before `cur_`; what stands behind them is
-- never read. A `double` and a `Fmt` come with the text that `snprintf` makes of them.
pub mod Digits
pub mod Room
pub mod Line
use transfer_server.Prelude.{
  ℕ, zero, suc, ◌+◌, ◌-◌, ◌*◌, ◌/◌, ◌%◌, ◌^◌, Bool, true, false, List, [], ◌∷◌, ◌++◌, ltb, leb,
  ◌==◌, if◌then◌else◌, length, take,
}
use transfer_server.Prelude.Int.{ℤ, pos, negsuc, sub_ℕ, ltb_ℤ}
use mathlib.Core.List.{reverse}

pub record FixedBuffer : Type 0 where
  pub size : ℕ
  pub text : List ℕ

-- `kSmallBuffer`, the size of a `LogStream`'s buffer, and `kLargeBuffer`.
abbrev pub small_buffer : ℕ
small_buffer = 4000

abbrev pub large_buffer : ℕ
large_buffer = 4000 * 1000

unfoldable pub create : ℕ → FixedBuffer
create size = record { size = size; text = [] }

-- `avail()`: `end() - cur_`.
unfoldable pub avail : FixedBuffer → ℕ
avail b = b.size - length b.text

-- `append`: all or nothing.
unfoldable pub append : FixedBuffer → List ℕ → FixedBuffer
unfolding avail
append b xs = if ltb (length xs) (avail b) then record b { text = b.text ++ xs } else b

unfoldable pub reset_buffer : FixedBuffer → FixedBuffer
reset_buffer b = record b { text = [] }

-- `as_string()`
pub as_string : FixedBuffer → List ℕ
as_string b = b.text

-- `i % 10` and `i / 10` of C++, which round towards 0.
unfoldable pub rem_10 : ℤ → ℤ
rem_10 (pos n) = pos (n % 10)
rem_10 (negsuc n) = sub_ℕ 0 ((n + 1) % 10)

unfoldable pub quot_10 : ℤ → ℤ
quot_10 (pos n) = pos (n / 10)
quot_10 (negsuc n) = sub_ℕ 0 ((n + 1) / 10)

-- `zero[lsd]`, in "9876543210123456789" from the middle on.
unfoldable pub zero_at : ℤ → ℕ
zero_at (pos d) = b'0' + d
zero_at (negsuc d) = b'1' + d

abbrev pub is_zero : ℤ → Bool
is_zero (pos n) = n == 0
is_zero (negsuc n) = false

-- The loop of `convert`, the lowest digit first, on fuel.
unfoldable pub digits : ℕ → ℤ → List ℕ
unfolding rem_10 quot_10 zero_at
digits zero i = []
digits (suc fuel) i =
    let rest = digits fuel (quot_10 i) in
    zero_at (rem_10 i) ∷ (if is_zero (quot_10 i) then [] else rest)

-- A 64-bit integer has 20 digits at most.
abbrev pub max_digits : ℕ
max_digits = 20

-- `convert(buf, value)`: the bytes written before the final 0.
unfoldable pub convert : ℤ → List ℕ
unfolding digits
convert v = reverse (digits max_digits v ++ (if ltb_ℤ v (pos 0) then b'-' ∷ [] else []))

abbrev pub max_numeric_size : ℕ
max_numeric_size = 32

-- `formatInteger`: the digits are written in place, and `add` moves the end behind them.
pub format_integer : FixedBuffer → ℤ → FixedBuffer
unfolding avail convert
format_integer b v =
    if leb max_numeric_size (avail b) then record b { text = b.text ++ convert v } else b

-- What can be put into a stream.
pub data Item : Type 0 where
  flag : Bool → Item
  integer : ℤ → Item
  character : ℕ → Item
  text : List ℕ → Item
  double : List ℕ → Item

-- `operator<<`. The text of a double is cut to 31 bytes by `snprintf`.
pub put : FixedBuffer → Item → FixedBuffer
unfolding append format_integer
put b (flag v) = append b (if v then b'1' ∷ [] else b'0' ∷ [])
put b (integer v) = format_integer b v
put b (character c) = append b (c ∷ [])
put b (text xs) = append b xs
put b (double xs) =
    if leb max_numeric_size (avail b)
    then record b { text = b.text ++ take (max_numeric_size - 1) xs }
    else b

pub put_all : FixedBuffer → List Item → FixedBuffer
unfolding put
put_all b [] = b
put_all b (x ∷ xs) = put_all (put b x) xs
