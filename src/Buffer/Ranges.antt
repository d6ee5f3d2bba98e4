-- ===== src/Buffer/Ranges.antt =====
-- Ranges of a byte vector after a copy into it and after a growth of it.
use transfer_server.Prelude.{
  ℕ, ◌+◌, ◌-◌, ◌≤◌, ◌≡◌, sym, ap, ◌∙◌, List, [], ◌++◌, append_assoc, arith, length, take, drop,
  length-append, length-take, length-drop, take-append_length, drop-append_le, take-append_le,
  drop-take,
}
use transfer_server.Buffer.{range, copy_to}

pub length-copy_to :
    (xs : List ℕ) (i : ℕ) (ys : List ℕ)
    → i + length ys ≤ length xs
    → length (copy_to xs i ys) ≡ length xs
length-copy_to xs i ys h = omega (
  arith,
  length-append (take i xs) (ys ++ drop (i + length ys) xs),
  length-append ys (drop (i + length ys) xs),
  length-take i xs,
  length-drop (i + length ys) xs,
)

pub length-range : (i j : ℕ) (xs : List ℕ) → i ≤ j → j ≤ length xs → length (range i j xs) ≡ j - i
length-range i j xs h k = omega (arith, length-take (j - i) (drop i xs), length-drop i xs)

-- A copy to the end `w` of a range extends the range by what was copied.
pub range-copy_to :
    (xs : List ℕ) (i w e : ℕ) (ys : List ℕ)
    → i ≤ w
    → w ≤ length xs
    → e ≡ w + length ys
    → range i e (copy_to xs w ys) ≡ range i w xs ++ ys
range-copy_to xs i w e ys h k q =
    ap (take (e - i)) (drop-append_le i (take w xs) (ys ++ rest) before)
    ∙ ap (λ (l : List ℕ). take (e - i) (l ++ (ys ++ rest))) (drop-take i w xs)
    ∙ ap (take (e - i)) (sym (append_assoc (range i w xs) ys rest))
    ∙ take-append_length (range i w xs ++ ys) rest (e - i)
        (omega (arith, length-append (range i w xs) ys, length-range i w xs h k))
  where
    rest : List ℕ
    rest = drop (w + length ys) xs

    before : i ≤ length (take w xs)
    before = omega (arith, length-take w xs)

-- Bytes added behind a range leave it as it is.
pub range-append :
    (xs zs : List ℕ) (i w : ℕ) → i ≤ w → w ≤ length xs → range i w (xs ++ zs) ≡ range i w xs
range-append xs zs i w h k =
    ap (take (w - i)) (drop-append_le i xs zs (omega arith))
    ∙ take-append_le (w - i) (drop i xs) zs (omega (arith, length-drop i xs))

pub range-empty : (i : ℕ) (xs : List ℕ) → range i i xs ≡ []
range-empty i xs = ap (λ k. take k (drop i xs)) {x = i - i} {y = 0} (omega arith)
