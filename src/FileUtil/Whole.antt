-- ===== src/FileUtil/Whole.antt =====
-- What `readToString` reads of a file.
use transfer_server.Prelude.{
  ℕ, zero, suc, ◌+◌, ◌-◌, ◌≤◌, ◌<◌, ◌≡◌, ◌⊎◌, inl, inr, Bool, false, min, refl, sym, ap, ◌∙◌, List,
  [], ◌∷◌, ◌++◌, none, arith, length, take, drop, dec_lt, length-take, length-drop, take_all,
  take_add,
}
use transfer_server.FileUtil.{
  ReadOutcome, got, StatOutcome, Contents, read_rest, read_to_string, read_file, buffer_size,
}

-- `read` answers with bytes of the file from the offset on, as many as it likes up to those asked for,
-- and none only at the end of the file.
pub record Serves (read : ℕ → ℕ → ℕ → ReadOutcome) (bytes : List ℕ) : Type 0 where
  pub count : ℕ → ℕ → ℕ → ℕ
  pub answers :
      (call offset n : ℕ)
      → read call offset n ≡ got (take (count call offset n) (drop offset bytes))
  pub enough : (call offset n : ℕ) → count call offset n ≤ n
  pub progress : (call offset n : ℕ) → 0 < n → offset < length bytes → 0 < count call offset n

list_cases : (xs : List ℕ) → (xs ≡ []) ⊎ ((b : ℕ) × (bs : List ℕ) × (xs ≡ b ∷ bs))
list_cases [] = inl refl
list_cases (b ∷ bs) = inr (b, bs, refl)

module _ (read : ℕ → ℕ → ℕ → ReadOutcome) (bytes : List ℕ) (max_size : ℕ)
    (s : Serves read bytes) where
  read_rest-take :
      (fuel call err m : ℕ) (content : List ℕ)
      → content ≡ take m bytes
      → m ≤ max_size
      → max_size ≤ m + fuel
      → read_rest read max_size fuel call err content ≡ (take max_size bytes, err)
  unfolding read_rest
  read_rest-take zero call err m content e lm f =
      let same : m ≡ max_size = omega (arith, lm, f) in
      ap (λ ys. (ys, err)) (e ∙ ap (λ k. take k bytes) same)
  read_rest-take (suc fuel) call err m content e lm f =
      let o = length content in
      let n = min (max_size - o) buffer_size in
      let k = s.count call o n in
      let filled : o ≡ min m (length bytes) = ap length e ∙ length-take m bytes in
      let cut = length-take k (drop o bytes) in
      let left = length-drop o bytes in
      elim (dec_lt o max_size) [
        | yes lt ↦ elim (list_cases (take k (drop o bytes))) [
          | inl none_left ↦
              let over : length bytes ≤ m = elim (dec_lt m (length bytes)) [
                | yes more ↦
                    let zero_long : length (take k (drop o bytes)) ≡ 0 = ap length none_left in
                    let k_pos =
                      s.progress call o n (omega (arith, lt)) (omega (arith, more, filled)) in
                    absurd (omega (arith, k_pos, zero_long, cut, left, more, filled))
                | no less ↦ omega (arith, less)
              ] in
              let all : content ≡ take max_size bytes =
                e
                ∙ take_all m bytes over
                ∙ sym (take_all max_size bytes (omega (arith, over, lm))) in
              ground (arith, lt, s.answers call o n, none_left, all)
          | inr (b, bs, some_left) ↦
              let long : 0 < length (take k (drop o bytes)) = ground (arith, some_left) in
              let at : o ≡ m = omega (arith, long, cut, left, filled) in
              let grown : content ++ (b ∷ bs) ≡ take (m + k) bytes =
                ap (λ ys. content ++ ys) (sym some_left)
                ∙ ap (λ ys. ys ++ take k (drop o bytes)) e
                ∙ ap (λ i. take m bytes ++ take k (drop i bytes)) at
                ∙ take_add m k bytes in
              let ih =
                read_rest-take fuel (suc call) err (m + k) (content ++ (b ∷ bs)) grown
                  (omega (arith, s.enough call o n, at, lt)) (omega (arith, f, long, cut)) in
              ground (arith, lt, s.answers call o n, some_left, ih)
        ]
        | no ge ↦
            let all : content ≡ take max_size bytes =
              e ∙ ap (λ i. take i bytes) (omega (arith, ge, filled, lm)) in
            ground (arith, ge, all)
      ]

-- A file that can be opened, whose `read`s give it piece by piece, in pieces of any size: `readFile`
-- without the pointer to the size returns 0 and the first `maxSize` bytes of the file, and all of it
-- if it is no longer.
pub read_file-take :
    (read : ℕ → ℕ → ℕ → ReadOutcome) (bytes : List ℕ) (max_size : ℕ) (stat : StatOutcome)
    (wants_modify wants_create : Bool) (old : Contents)
    → Serves read bytes
    → read_file read max_size none stat false wants_modify wants_create old
      ≡ record old { err = 0; content = take max_size bytes }
unfolding read_file read_to_string
read_file-take read bytes max_size stat wants_modify wants_create old s =
    let r =
      read_rest-take read bytes max_size s max_size 0 0 0 [] refl (omega arith) (omega arith) in
    ap (λ q. record old { err = q.1; content = q.0 }) r
