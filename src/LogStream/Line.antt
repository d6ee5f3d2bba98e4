-- ===== src/LogStream/Line.antt =====
-- Items that fit into a buffer stand in it one after the other.
use transfer_server.Prelude.{
  ℕ, ◌+◌, ◌-◌, ◌≤◌, ◌≡◌, refl, sym, ap, ◌∙◌, List, [], ◌∷◌, ◌++◌, append_assoc, append-nil, arith,
  length, length-append, take, if◌then◌else◌, leb, true, false,
}
use transfer_server.LogStream.{
  FixedBuffer, avail, append, convert, format_integer, Item, flag, integer, character, text, double,
  put, put_all, max_numeric_size,
}

-- What an item writes.
abbrev pub written : Item → List ℕ
written (flag v) = if v then b'1' ∷ [] else b'0' ∷ []
written (integer v) = convert v
written (character c) = c ∷ []
written (text xs) = xs
written (double xs) = take (max_numeric_size - 1) xs

abbrev pub all_written : List Item → List ℕ
all_written [] = []
all_written (x ∷ xs) = written x ++ all_written xs

append-fits :
    (b : FixedBuffer) (xs : List ℕ)
    → length b.text + length xs + max_numeric_size ≤ b.size
    → append b xs ≡ record b { text = b.text ++ xs }
unfolding append avail
append-fits b xs h = ground (arith, h)

sized-fits :
    (b : FixedBuffer) (xs : List ℕ)
    → length b.text + length xs + max_numeric_size ≤ b.size
    → (if leb max_numeric_size (avail b) then record b { text = b.text ++ xs } else b)
      ≡ record b { text = b.text ++ xs }
unfolding avail
sized-fits b xs h = ground (arith, h)

put-fits :
    (b : FixedBuffer) (x : Item)
    → length b.text + length (written x) + max_numeric_size ≤ b.size
    → put b x ≡ record b { text = b.text ++ written x }
unfolding put append format_integer avail
put-fits b (flag true) h = append-fits b (b'1' ∷ []) h
put-fits b (flag false) h = append-fits b (b'0' ∷ []) h
put-fits b (integer v) h = sized-fits b (convert v) h
put-fits b (character c) h = append-fits b (c ∷ []) h
put-fits b (text xs) h = append-fits b xs h
put-fits b (double xs) h = sized-fits b (take (max_numeric_size - 1) xs) h

pub put_all-fits :
    (xs : List Item) (b : FixedBuffer)
    → length b.text + length (all_written xs) + max_numeric_size ≤ b.size
    → put_all b xs ≡ record b { text = b.text ++ all_written xs }
unfolding put_all
put_all-fits [] b h = ap (λ ys. record b { text = ys }) (sym (append-nil b.text))
put_all-fits (x ∷ xs) b h =
    let l = length-append (written x) (all_written xs) in
    let l' = length-append b.text (written x) in
    rw (put-fits b x (omega (arith, h, l))) (
      put_all-fits xs (record b { text = b.text ++ written x }) (omega (arith, h, l, l'))
      ∙ ap (λ ys. record b { text = ys }) (append_assoc b.text (written x) (all_written xs)))

-- Putting one list of items after another.
pub put_all-append :
    (xs ys : List Item) (b : FixedBuffer) → put_all b (xs ++ ys) ≡ put_all (put_all b xs) ys
unfolding put_all
put_all-append [] ys b = refl
put_all-append (x ∷ xs) ys b = put_all-append xs ys (put b x)
