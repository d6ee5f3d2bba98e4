-- ===== src/Buffer/Search.antt =====
-- `findCRLF`: where the first "\r\n" of the readable bytes stands.
use mathlib.Core.Option
use transfer_server.Prelude.{
  ℕ, zero, suc, ◌+◌, ◌-◌, ◌≤◌, ◌≡◌, refl, sym, ap, ◌∙◌, List, [], ◌∷◌, ◌++◌, arith, length, take,
  drop, none, some, drop-append_length, take-append_length, length-append, ok, drop-take, drop-drop,
  take-take, Free,
}
use transfer_server.Buffer.Ranges.{length-range}
use transfer_server.Buffer.Space.{IsValid, contents}
use transfer_server.Buffer.Contents.{retrieve-Holds}
use transfer_server.Buffer.{Buffer, range, search_crlf, find_crlf, find_crlf_from}

abbrev pub crlf : List ℕ
crlf = 13 ∷ 10 ∷ []

-- A match lies within the bytes.
pub search_crlf-lt : (xs : List ℕ) (k : ℕ) → search_crlf xs ≡ some k → k + 2 ≤ length xs
unfolding search_crlf
search_crlf-lt [] k e = cc
search_crlf-lt (x ∷ []) k e = cc
search_crlf-lt (x ∷ y ∷ rest) zero e = omega arith
search_crlf-lt (x ∷ y ∷ rest) (suc k) e = ground (arith, search_crlf-lt (y ∷ rest) k)

-- A match is a match: the two bytes stand there.
pub search_crlf_sound :
    (xs : List ℕ) (k : ℕ) → search_crlf xs ≡ some k → drop k xs ≡ crlf ++ drop (suc (suc k)) xs
unfolding search_crlf
search_crlf_sound [] k e = cc
search_crlf_sound (x ∷ []) k e = cc
search_crlf_sound (x ∷ y ∷ rest) zero e = ground arith
search_crlf_sound (x ∷ y ∷ rest) (suc k) e = ground (arith, search_crlf_sound (y ∷ rest) k)

-- The first match is found behind bytes that hold no "\r".
pub search_crlf-append :
    (xs ys : List ℕ) → Free 13 xs → search_crlf (xs ++ (crlf ++ ys)) ≡ some (length xs)
unfolding search_crlf
search_crlf-append [] ys f = refl
search_crlf-append (x ∷ []) ys f = ground arith
search_crlf-append (x ∷ y ∷ xs) ys f = ground (arith, search_crlf-append (y ∷ xs) ys)

-- Bytes with no "\r" have no match, nor has such a text with a last "\r".
pub search_crlf-Free : (xs : List ℕ) → Free 13 xs → search_crlf xs ≡ none
unfolding search_crlf
search_crlf-Free [] f = refl
search_crlf-Free (x ∷ []) f = refl
search_crlf-Free (x ∷ y ∷ xs) f = ground (arith, search_crlf-Free (y ∷ xs))

-- The bytes [i, j) of what is readable.
pub range-contents :
    (b : Buffer) (i j : ℕ)
    → IsValid b
    → i ≤ j
    → j ≤ length (contents b)
    → range (b.reader + i) (b.reader + j) b.bytes ≡ range i j (contents b)
range-contents b i j v h k =
    let n = b.writer - b.reader in
    let le : j ≤ n = omega (arith, length-range b.reader b.writer b.bytes v.ordered v.within) in
    let eq : b.reader + j - (b.reader + i) ≡ j - i = omega arith in
    ap (λ m. take m (drop (b.reader + i) b.bytes)) eq
    ∙ sym (take-take (j - i) (n - i) (drop (b.reader + i) b.bytes) (omega arith))
    ∙ ap (λ l. take (j - i) (take (n - i) l)) (sym (drop-drop i b.reader b.bytes))
    ∙ ap (take (j - i)) (sym (drop-take i n (drop b.reader b.bytes)))

pub find_crlf_from_lem :
    (b : Buffer) (i : ℕ)
    → IsValid b
    → i ≤ length (contents b)
    → find_crlf_from b (b.reader + i)
      ≡ ok (Option.map (λ k. b.reader + i + k) (search_crlf (drop i (contents b))))
unfolding find_crlf_from
find_crlf_from_lem b i v h =
    let n = length-range b.reader b.writer b.bytes v.ordered v.within in
    ground (arith, n, (retrieve-Holds b i v h).shows)

-- A part of the readable bytes, found by the lengths of what stands before it and of itself.
pub range-middle :
    (b : Buffer) (xs ys zs : List ℕ) (i j : ℕ)
    → IsValid b
    → contents b ≡ xs ++ (ys ++ zs)
    → i ≡ b.reader + length xs
    → j ≡ i + length ys
    → range i j b.bytes ≡ ys
range-middle b xs ys zs i j v e p q =
    let n : length (contents b) ≡ length xs + (length ys + length zs) =
      ap length e ∙ length-append xs (ys ++ zs) ∙ ap (λ k. length xs + k) (length-append ys zs) in
    ap (λ k. range i k b.bytes) {y = b.reader + (length xs + length ys)} (omega arith)
    ∙ ap (λ k. range k (b.reader + (length xs + length ys)) b.bytes) p
    ∙ range-contents b (length xs) (length xs + length ys) v (omega arith) (omega arith)
    ∙ ap (range (length xs) (length xs + length ys)) e
    ∙ ap (take (length xs + length ys - length xs))
        (drop-append_length xs (ys ++ zs) (length xs) refl)
    ∙ take-append_length ys zs (length xs + length ys - length xs) (omega arith)

-- The first end of line of a buffer that holds a line free of "\r".
pub find_crlf-line :
    (b : Buffer) (xs ys : List ℕ)
    → contents b ≡ xs ++ (crlf ++ ys)
    → Free 13 xs
    → find_crlf b ≡ some (b.reader + length xs)
unfolding find_crlf
find_crlf-line b xs ys e f =
    ap (λ l. Option.map (λ k. b.reader + k) (search_crlf l)) e
    ∙ ap (Option.map (λ k. b.reader + k)) (search_crlf-append xs ys f)

pub find_crlf-Free : (b : Buffer) → Free 13 (contents b) → find_crlf b ≡ none
unfolding find_crlf
find_crlf-Free b f = ap (Option.map (λ k. b.reader + k)) (search_crlf-Free (contents b) f)
