-- ===== src/LogStream/Room.antt =====
-- A line never passes the end of its buffer.
use transfer_server.Prelude.{
  ℕ, zero, suc, ◌+◌, ◌-◌, ◌≤◌, ◌≡◌, refl, sym, ap, ◌∙◌, List, [], ◌∷◌, ◌++◌, append_assoc,
  append-nil, arith, length, length-append, length-take, take, ltb, leb, if◌then◌else◌, Bool-cases,
  inl, inr,
}
use transfer_server.Prelude.Int.{ℤ, pos, ltb_ℤ}
use transfer_server.LogStream.{
  FixedBuffer, avail, append, digits, convert, format_integer, Item, flag, integer, character, text,
  double, put, put_all, quot_10, is_zero, max_digits, max_numeric_size,
}
use transfer_server.LogStream.Digits.{length-reverse}

length-digits : (fuel : ℕ) (i : ℤ) → length (digits fuel i) ≤ fuel
unfolding digits
length-digits zero i = omega arith
length-digits (suc fuel) i = elim (Bool-cases (is_zero (quot_10 i))) [
  | inl z ↦ rw z (omega arith)
  | inr z ↦ rw z (omega (arith, length-digits fuel (quot_10 i)))
]

pub length-convert : (v : ℤ) → length (convert v) ≤ 21
unfolding convert
length-convert v = elim (Bool-cases (ltb_ℤ v (pos 0))) [
  | inl n ↦ rw n (
      omega (
        arith,
        length-reverse (digits max_digits v ++ (b'-' ∷ [])),
        length-append (digits max_digits v) (b'-' ∷ []),
        length-digits max_digits v,
      ))
  | inr n ↦ rw n (
      omega (
        arith,
        length-reverse (digits max_digits v ++ []),
        length-append (digits max_digits v) [],
        length-digits max_digits v,
      ))
]

-- The buffer `b'` holds all that `b` holds and perhaps more, within the same size.
pub record Extends (b b' : FixedBuffer) : Type 0 where
  pub more : List ℕ
  pub longer : b'.text ≡ b.text ++ more
  pub size : b'.size ≡ b.size
  pub fits : length b'.text ≤ b'.size

same : (b : FixedBuffer) → length b.text ≤ b.size → Extends b b
same b h = record { more = []; longer = sym (append-nil b.text); size = refl; fits = h }

longer :
    (b : FixedBuffer) (xs : List ℕ)
    → length b.text + length xs ≤ b.size
    → Extends b (record b { text = b.text ++ xs })
longer b xs h = record {
  more = xs;
  longer = refl;
  size = refl;
  fits = omega (arith, length-append b.text xs);
}

append-Extends : (b : FixedBuffer) (xs : List ℕ) → length b.text ≤ b.size → Extends b (append b xs)
unfolding append avail
append-Extends b xs h = elim (Bool-cases (ltb (length xs) (avail b))) [
  | inl r ↦ rw r (longer b xs (ground arith))
  | inr r ↦ rw r (same b h)
]

sized :
    (b : FixedBuffer) (xs : List ℕ)
    → length b.text ≤ b.size
    → length xs ≤ max_numeric_size
    → Extends b (if leb max_numeric_size (avail b) then record b { text = b.text ++ xs } else b)
unfolding avail
sized b xs h k = elim (Bool-cases (leb max_numeric_size (avail b))) [
  | inl r ↦ rw r (longer b xs (ground arith))
  | inr r ↦ rw r (same b h)
]

put-Extends : (b : FixedBuffer) (x : Item) → length b.text ≤ b.size → Extends b (put b x)
unfolding put format_integer
put-Extends b (flag v) h = append-Extends b _ h
put-Extends b (integer v) h = sized b (convert v) h (omega (arith, length-convert v))
put-Extends b (character c) h = append-Extends b (c ∷ []) h
put-Extends b (text xs) h = append-Extends b xs h
put-Extends b (double xs) h =
    sized b (take (max_numeric_size - 1) xs) h
      (omega (arith, length-take (max_numeric_size - 1) xs))

-- Whatever is put into a stream whose text is within the buffer, the bytes before stay, and the end
-- stays within the buffer: an integer is written in place only where there is room for its digits.
pub put_all-Extends :
    (xs : List Item) (b : FixedBuffer) → length b.text ≤ b.size → Extends b (put_all b xs)
unfolding put_all
put_all-Extends [] b h = same b h
put_all-Extends (x ∷ xs) b h =
    let e = put-Extends b x h in
    let f = put_all-Extends xs (put b x) e.fits in
    record {
      more = e.more ++ f.more;
      longer = f.longer ∙ ap (λ ys. ys ++ f.more) e.longer ∙ append_assoc b.text e.more f.more;
      size = f.size ∙ e.size;
      fits = f.fits;
    }
