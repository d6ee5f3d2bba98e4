-- ===== src/ProcessInfo/Numbers.antt =====
-- `atoi` on spelled numbers.
use transfer_server.Prelude.{
  ℕ, ◌+◌, ◌-◌, ◌*◌, ◌≤◌, ◌≡◌, refl, ap, ◌∙◌, true, false, List, [], ◌∷◌, ◌++◌, All, ok, arith,
  if◌then◌else◌, ◌==◌,
}
use transfer_server.Prelude.Int.{pos}
use transfer_server.Register.{int_max}
use transfer_server.LogStream.Digits.{spelled}
use transfer_server.ProcessInfo.{
  is_digit, is_space, skip_spaces, digits_value, signed_value, in_int, atoi,
}

abbrev pub Digit : ℕ → Type 0
Digit c = is_digit c ≡ true

abbrev pub Space : ℕ → Type 0
Space c = is_space c ≡ true

-- Nothing follows, or no digit does.
abbrev pub Ends : List ℕ → Type 0
Ends [] = Unit {0}
Ends (c ∷ cs) = is_digit c ≡ false

digits_value-spelled :
    (n : ℕ) (ds rest : List ℕ)
    → All Digit ds
    → Ends rest
    → digits_value n (ds ++ rest) ≡ spelled n ds
unfolding digits_value spelled
digits_value-spelled n [] [] d e = refl
digits_value-spelled n [] (c ∷ cs) d e = rw e refl
digits_value-spelled n (c ∷ ds) rest d e =
    rw (d.0) (digits_value-spelled (n * 10 + (c - b'0')) ds rest d.1 e)

skip_spaces-Digit :
    (ws : List ℕ) (c : ℕ) (cs : List ℕ)
    → All Space ws
    → Digit c
    → skip_spaces (ws ++ (c ∷ cs)) ≡ c ∷ cs
unfolding skip_spaces
skip_spaces-Digit [] c cs w d = ground (arith, d)
skip_spaces-Digit (x ∷ ws) c cs w d = rw (w.0) (skip_spaces-Digit ws c cs w.1 d)

signed_value-Digit :
    (c : ℕ) (cs : List ℕ) (n : ℕ)
    → Digit c
    → digits_value 0 (c ∷ cs) ≡ n
    → n ≤ int_max
    → signed_value (c ∷ cs) ≡ ok (pos n)
signed_value-Digit c cs n d e le =
    let z : (if c == b'+' then cs else c ∷ cs) ≡ c ∷ cs = ground (arith, d) in
    let m : (c == b'-') ≡ false = ground (arith, d) in
    rw m (ap (λ xs. in_int (digits_value 0 xs)) z ∙ ap in_int e ∙ ground (arith))

-- White space, digits, and something else or nothing.
pub atoi-spelled :
    (ws : List ℕ) (c : ℕ) (cs rest : List ℕ)
    → All Space ws
    → All Digit (c ∷ cs)
    → Ends rest
    → spelled 0 (c ∷ cs) ≤ int_max
    → atoi (ws ++ (c ∷ cs ++ rest)) ≡ ok (pos (spelled 0 (c ∷ cs)))
unfolding atoi
atoi-spelled ws c cs rest w d e le =
    ap signed_value (skip_spaces-Digit ws c (cs ++ rest) w d.0)
    ∙ signed_value-Digit c (cs ++ rest) (spelled 0 (c ∷ cs)) d.0
        (digits_value-spelled 0 (c ∷ cs) rest d e) le
