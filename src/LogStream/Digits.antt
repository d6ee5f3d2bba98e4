-- ===== src/LogStream/Digits.antt =====
-- The digits of `convert` against the number that they spell.
use transfer_server.Prelude.{
  ℕ, zero, suc, ◌+◌, ◌-◌, ◌*◌, ◌/◌, ◌%◌, ◌^◌, ◌<◌, ◌≤◌, ◌≡◌, refl, sym, ap, subst, ◌∙◌, All,
  All-append, dec_lt, true, false, List, [], ◌∷◌, ◌++◌, append-nil, append_assoc, length,
  length-append, arith, if◌then◌else◌, Bool-cases, inl, inr, ◌==◌,
}
use transfer_server.Prelude.Int.{ℤ, pos, negsuc, ltb_ℤ}
use transfer_server.LogStream.{digits, convert, quot_10, rem_10, zero_at, is_zero, max_digits}
use mathlib.Core.List.{reverse, reverse_aux}

-- The number that decimal digits spell, the highest first, behind the number `n`.
unfoldable pub spelled : ℕ → List ℕ → ℕ
spelled n [] = n
spelled n (c ∷ cs) = spelled (n * 10 + (c - b'0')) cs

spelled-append :
    (n : ℕ) (cs : List ℕ) (c : ℕ) → spelled n (cs ++ (c ∷ [])) ≡ spelled n cs * 10 + (c - b'0')
unfolding spelled
spelled-append n [] c = refl
spelled-append n (d ∷ cs) c = spelled-append (n * 10 + (d - b'0')) cs c

reverse_aux-append : (xs ys : List ℕ) → reverse_aux xs ys ≡ reverse_aux xs [] ++ ys
reverse_aux-append [] ys = refl
reverse_aux-append (x ∷ xs) ys =
    reverse_aux-append xs (x ∷ ys)
    ∙ sym (append_assoc (reverse_aux xs []) (x ∷ []) ys)
    ∙ ap (λ zs. zs ++ ys) (sym (reverse_aux-append xs (x ∷ [])))

reverse_cons : (x : ℕ) (xs : List ℕ) → reverse (x ∷ xs) ≡ reverse xs ++ (x ∷ [])
reverse_cons x xs = reverse_aux-append xs (x ∷ [])

reverse_aux-snoc :
    (xs ys : List ℕ) (c : ℕ) → reverse_aux (xs ++ (c ∷ [])) ys ≡ c ∷ reverse_aux xs ys
reverse_aux-snoc [] ys c = refl
reverse_aux-snoc (x ∷ xs) ys c = reverse_aux-snoc xs (x ∷ ys) c

reverse_snoc : (xs : List ℕ) (c : ℕ) → reverse (xs ++ (c ∷ [])) ≡ c ∷ reverse xs
reverse_snoc xs c = reverse_aux-snoc xs [] c

pub length-reverse : (xs : List ℕ) → length (reverse xs) ≡ length xs
length-reverse [] = refl
length-reverse (x ∷ xs) =
    ap length (reverse_cons x xs)
    ∙ omega (arith, length-append (reverse xs) (x ∷ []), length-reverse xs)

abbrev pub magnitude : ℤ → ℕ
magnitude (pos n) = n
magnitude (negsuc n) = n + 1

abbrev limit : ℕ → ℕ
limit zero = 1
limit (suc fuel) = limit fuel * 10

digit_lem : (i : ℤ) → zero_at (rem_10 i) ≡ b'0' + magnitude i % 10
unfolding zero_at rem_10
digit_lem (pos n) = refl
digit_lem (negsuc n) = ground arith

quot_lem : (i : ℤ) → magnitude (quot_10 i) ≡ magnitude i / 10
unfolding quot_10
quot_lem (pos n) = refl
quot_lem (negsuc n) = ground arith

zero_lem : (i : ℤ) → is_zero i ≡ (magnitude i == 0)
zero_lem (pos n) = refl
zero_lem (negsuc n) = ground arith

digits-spelled :
    (fuel : ℕ) (i : ℤ)
    → magnitude i < limit fuel
    → spelled 0 (reverse (digits fuel i)) ≡ magnitude i
unfolding digits spelled
digits-spelled zero i h = ground arith
digits-spelled (suc fuel) i h = elim (Bool-cases (is_zero (quot_10 i))) [
  | inl z ↦ rw z (omega (arith, digit_lem i, quot_lem i, last z))
  | inr z ↦
      let d = digits fuel (quot_10 i) in
      let ih = digits-spelled fuel (quot_10 i) (omega (arith, quot_lem i)) in
      rw z (
        ap (spelled 0) (reverse_cons (zero_at (rem_10 i)) d)
        ∙ spelled-append 0 (reverse d) (zero_at (rem_10 i))
        ∙ omega (arith, digit_lem i, quot_lem i, ih))
]
  where
    last : is_zero (quot_10 i) ≡ true → magnitude (quot_10 i) ≡ 0
    last z = ground (arith, zero_lem (quot_10 i))

-- A decimal digit, '0' to '9'.
abbrev pub IsDigit : ℕ → Type 0
IsDigit c = (b'0' ≤ c) × (c ≤ b'9')

pub digits-IsDigit : (fuel : ℕ) (i : ℤ) → All IsDigit (digits fuel i)
unfolding digits
digits-IsDigit zero i = tt
digits-IsDigit (suc fuel) i =
    let first : IsDigit (zero_at (rem_10 i)) =
      (omega (arith, digit_lem i), omega (arith, digit_lem i)) in
    elim (Bool-cases (is_zero (quot_10 i))) [
      | inl z ↦ rw z (first, tt)
      | inr z ↦ rw z (first, digits-IsDigit fuel (quot_10 i))
    ]

reverse-All : (xs : List ℕ) → All IsDigit xs → All IsDigit (reverse xs)
reverse-All [] h = tt
reverse-All (x ∷ xs) h =
    subst (All IsDigit) (sym (reverse_cons x xs))
      (All-append IsDigit (reverse xs) (x ∷ []) (reverse-All xs h.1) (h.0, tt))

digits_some : (fuel : ℕ) (i : ℤ) → 0 < length (digits (suc fuel) i)
unfolding digits
digits_some fuel i = elim (Bool-cases (is_zero (quot_10 i))) [
  | inl z ↦ rw z (omega arith)
  | inr z ↦ rw z (omega arith)
]

-- So many digits spell less than that power of ten.
spelled-lt :
    (ds : List ℕ) (n k : ℕ) → All IsDigit ds → n < limit k → spelled n ds < limit (k + length ds)
unfolding spelled
spelled-lt [] n k h lt = subst (λ j. n < limit j) none_more lt
  where
    none_more : k ≡ k + 0
    none_more = omega arith
spelled-lt (c ∷ ds) n k h lt =
    subst (λ j. spelled (n * 10 + (c - b'0')) ds < limit j) one_more
      (spelled-lt ds (n * 10 + (c - b'0')) (suc k) h.1 (omega (arith, h.0, lt)))
  where
    one_more : suc k + length ds ≡ k + suc (length ds)
    one_more = omega arith

limit_mono : (j k : ℕ) → j ≤ k → limit j ≤ limit k
limit_mono zero zero h = omega arith
limit_mono zero (suc k) h = omega (arith, limit_mono zero k (omega arith))
limit_mono (suc j) zero h = absurd (omega arith)
limit_mono (suc j) (suc k) h = omega (arith, limit_mono j k (omega arith))

-- `convert` writes a number of up to 20 digits exactly: a minus sign if it is below 0, and then one or more
-- of the characters '0' to '9', which spell its magnitude.
pub convert-spelled :
    (v : ℤ)
    → magnitude v < 10 ^ 20
    → (ds : List ℕ) × (convert v ≡ (if ltb_ℤ v (pos 0) then b'-' ∷ ds else ds))
      × (0 < length ds)
      × All IsDigit ds
      × (spelled 0 ds ≡ magnitude v)
unfolding convert
convert-spelled v h = (
  reverse (digits max_digits v),
  elim (Bool-cases (ltb_ℤ v (pos 0))) [
    | inl n ↦ rw n (reverse_snoc (digits max_digits v) b'-')
    | inr n ↦ rw n (ap reverse (append-nil (digits max_digits v)))
  ],
  subst (λ k. 0 < k) (sym (length-reverse (digits max_digits v))) (digits_some 19 v),
  reverse-All (digits max_digits v) (digits-IsDigit max_digits v),
  digits-spelled max_digits v (omega arith),
)

-- Numbers from 100000 on take more than five characters.
pub convert_long : (n : ℕ) → 100000 ≤ n → n < 10 ^ 20 → 5 < length (convert (pos n))
convert_long n le h =
    let (ds, e, _, d, s) = convert-spelled (pos n) h in
    elim (dec_lt 5 (length ds)) [
      | yes lt ↦
          let plus : ltb_ℤ (pos n) (pos 0) ≡ false = ground arith in
          subst (λ xs. 5 < length xs) (sym (e ∙ ap (λ b. if b then b'-' ∷ ds else ds) plus)) lt
      | no ge ↦ absurd (
          omega (
            arith,
            spelled-lt ds 0 0 d (omega arith),
            limit_mono (0 + length ds) 5 (omega arith),
            s,
            le,
          ))
    ]

-- So many digits are enough.
digits_short : (fuel k : ℕ) (i : ℤ) → magnitude i < limit (suc k) → length (digits fuel i) ≤ suc k
unfolding digits
digits_short zero k i h = omega arith
digits_short (suc fuel) zero i h =
    let z : is_zero (quot_10 i) ≡ true = ground (arith, zero_lem (quot_10 i), quot_lem i, h) in
    rw z (omega arith)
digits_short (suc fuel) (suc k) i h = elim (Bool-cases (is_zero (quot_10 i))) [
  | inl z ↦ rw z (omega arith)
  | inr z ↦ rw z (omega (arith, digits_short fuel k (quot_10 i) (omega (arith, quot_lem i, h))))
]

-- Numbers below 100000 take five characters at most.
pub convert_short : (n : ℕ) → n < 100000 → length (convert (pos n)) ≤ 5
unfolding convert
convert_short n lt =
    let plus : ltb_ℤ (pos n) (pos 0) ≡ false = ground arith in
    rw plus (
      omega (
        arith,
        ap length (append-nil (digits max_digits (pos n))),
        length-reverse (digits max_digits (pos n) ++ []),
        digits_short max_digits 4 (pos n) (omega (arith, lt)),
      ))
