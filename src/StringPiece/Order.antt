-- ===== src/StringPiece/Order.antt =====
-- Comparison is the lexicographic order of the strings.
use transfer_server.Prelude.{
  ℕ, zero, suc, ◌≤◌, ◌≡◌, ◌↔◌, abort, refl, ap, ◌∙◌, true, false, List, [], ◌∷◌, Checked, ok, ◌>>=◌,
  if◌then◌else◌, ltb, arith, length, take, Bool-cases, inl, inr,
}
use transfer_server.Prelude.Int.{ℤ, pos, negsuc}
use transfer_server.StringPiece.{StringPiece, memcmp, by_length, compare, as_string}

-- The lexicographic order: -1, 0 or 1.
abbrev pub lexicographic : List ℕ → List ℕ → ℤ
lexicographic [] [] = pos 0
lexicographic [] (y ∷ ys) = negsuc 0
lexicographic (x ∷ xs) [] = pos 1
lexicographic (x ∷ xs) (y ∷ ys) =
    let rest = lexicographic xs ys in
    if ltb x y then negsuc 0 else (if ltb y x then pos 1 else rest)

-- All bytes of the piece can be read.
abbrev pub Readable : StringPiece → Type 0
Readable s = s.size ≤ length s.ptr

shorter_step :
    (m k : ℕ) → (if ltb (suc m) (suc k) then suc m else suc k) ≡ suc (if ltb m k then m else k)
shorter_step m k = ground (arith)

by_length-suc : (m k : ℕ) (r : ℤ) → by_length (suc m) (suc k) r ≡ by_length m k r
by_length-suc m k r = ground (arith)

bind-by_length :
    (m k : ℕ) (c : Checked ℤ)
    → (c >>= λ r. ok (by_length (suc m) (suc k) r)) ≡ (c >>= λ r. ok (by_length m k r))
bind-by_length m k (ok r) = ap ok (by_length-suc m k r)
bind-by_length m k abort = refl

-- The bytes that `memcmp` compares, one pair after the other.
memcmp-lexicographic :
    (m k : ℕ) (p q : List ℕ)
    → m ≤ length p
    → k ≤ length q
    → (memcmp (if ltb m k then m else k) p q >>= λ r. ok (by_length m k r))
      ≡ ok (lexicographic (take m p) (take k q))
unfolding memcmp
memcmp-lexicographic zero zero p q hm hk = refl
memcmp-lexicographic zero (suc k) p (y ∷ q) hm hk =
    let t : ltb 0 (suc k) ≡ true = ground (arith) in rw t refl
memcmp-lexicographic (suc m) zero (x ∷ p) q hm hk =
    let f : ltb (suc m) 0 ≡ false = ground (arith) in
    let t : ltb 0 (suc m) ≡ true = ground (arith) in rw (f, t) refl
memcmp-lexicographic (suc m) (suc k) (x ∷ p) (y ∷ q) hm hk =
    let n = if ltb m k then m else k in
    let ih = memcmp-lexicographic m k p q (omega (arith, hm)) (omega (arith, hk)) in
    ap (λ i. memcmp i (x ∷ p) (y ∷ q) >>= λ r. ok (by_length (suc m) (suc k) r)) (shorter_step m k)
    ∙ bind-by_length m k (memcmp (suc n) (x ∷ p) (y ∷ q))
    ∙ elim (Bool-cases (ltb x y)) [
      | inl t ↦ rw t refl
      | inr f ↦ elim (Bool-cases (ltb y x)) [ inl t ↦ rw (f, t) refl | inr g ↦ rw (f, g) ih ]
    ]
memcmp-lexicographic zero (suc k) p [] hm hk = ground (arith, hk)
memcmp-lexicographic (suc m) k [] q hm hk = ground (arith, hm)
memcmp-lexicographic (suc m) (suc k) (x ∷ p) [] hm hk = ground (arith, hk)

-- `compare` reads nothing behind the pieces, and gives the lexicographic order of their strings, which
-- are the same exactly where it gives 0.
pub compare-lexicographic :
    (s x : StringPiece)
    → Readable s
    → Readable x
    → (compare s x ≡ ok (lexicographic (as_string s) (as_string x)))
      × ((lexicographic (as_string s) (as_string x) ≡ pos 0) ↔ (as_string s ≡ as_string x))
unfolding compare
compare-lexicographic s x hs hx = (
  memcmp-lexicographic s.size x.size s.ptr x.ptr hs hx,
  lexicographic_iff (as_string s) (as_string x),
)
  where
    lexicographic_iff : (xs ys : List ℕ) → (lexicographic xs ys ≡ pos 0) ↔ (xs ≡ ys)
    lexicographic_iff [] [] = (λ e. refl, λ e. refl)
    lexicographic_iff [] (y ∷ ys) = (λ e. cc e, λ e. cc e)
    lexicographic_iff (x ∷ xs) [] = (λ e. cc e, λ e. cc e)
    lexicographic_iff (x ∷ xs) (y ∷ ys) = ground (arith, lexicographic_iff xs ys)
