-- ===== src/ProcessInfo/Tasks.antt =====
-- The threads and the open files of a process, from the entries of two directories.
use mathlib.Core.List.{Perm}
use mathlib.Core.List.Perm
use transfer_server.Prelude.{
  ℕ, ◌≤◌, ◌≡◌, refl, sym, ap, ◌∙◌, true, List, [], ◌∷◌, ◌++◌, append_assoc, append-nil, All, some,
  ok, arith, Bool-cases, inl, inr, if◌then◌else◌,
}
use transfer_server.Prelude.Int.{ℤ, pos, ◌≤ℤ◌, ltb_ℤ}
use transfer_server.Register.{int_max}
use transfer_server.LogStream.Digits.{spelled}
use transfer_server.ProcessInfo.{
  starts_with_digit, atoi, task_dir_filter, scan_entries, scan_dir, sort, insert_sorted, threads,
}
use transfer_server.ProcessInfo.Numbers.{Digit, atoi-spelled}

-- A name that starts with a digit is the number of a thread.
abbrev pub IsTask : List ℕ → Type 0
IsTask name = starts_with_digit name ≡ true → All Digit name × (spelled 0 name ≤ int_max)

-- The numbers among the names.
abbrev pub task_numbers : List (List ℕ) → List ℤ
task_numbers [] = []
task_numbers (name ∷ names) =
    if starts_with_digit name then pos (spelled 0 name) ∷ task_numbers names else task_numbers names

-- Each number is no larger than all that follow.
abbrev pub IsSorted : List ℤ → Type 0
IsSorted [] = Unit {0}
IsSorted (a ∷ rest) = All (λ b. a ≤ℤ b) rest × IsSorted rest

insert_sorted-All :
    (c a : ℤ) (bs : List ℤ) → c ≤ℤ a → All (λ b. c ≤ℤ b) bs → All (λ b. c ≤ℤ b) (insert_sorted a bs)
unfolding insert_sorted
insert_sorted-All c a [] le h = (le, tt)
insert_sorted-All c a (b ∷ bs) le h = elim (Bool-cases (ltb_ℤ b a)) [
  | inl y ↦ rw y (h.0, insert_sorted-All c a bs le h.1)
  | inr n ↦ rw n (le, h)
]

All-le_trans : (a b : ℤ) (bs : List ℤ) → a ≤ℤ b → All (λ c. b ≤ℤ c) bs → All (λ c. a ≤ℤ c) bs
All-le_trans a b [] le h = tt
All-le_trans a b (c ∷ bs) le h = (omega (arith, h.0), All-le_trans a b bs le h.1)

insert_sorted-IsSorted : (a : ℤ) (bs : List ℤ) → IsSorted bs → IsSorted (insert_sorted a bs)
unfolding insert_sorted
insert_sorted-IsSorted a [] s = (tt, tt)
insert_sorted-IsSorted a (b ∷ bs) s = elim (Bool-cases (ltb_ℤ b a)) [
  | inl y ↦
      let le : b ≤ℤ a = ground (arith, y) in
      rw y (insert_sorted-All b a bs le s.0, insert_sorted-IsSorted a bs s.1)
  | inr n ↦ let le : a ≤ℤ b = ground (arith, n) in rw n ((le, All-le_trans a b bs le s.0), s)
]

insert_sorted-perm : (a : ℤ) (bs : List ℤ) → Perm (insert_sorted a bs) (a ∷ bs)
unfolding insert_sorted
insert_sorted-perm a [] = Perm.refl (a ∷ [])
insert_sorted-perm a (b ∷ bs) = elim (Bool-cases (ltb_ℤ b a)) [
  | inl y ↦ rw y (Perm.trans (Perm.cons b (insert_sorted-perm a bs)) (Perm.swap a b bs))
  | inr n ↦ rw n (Perm.refl (a ∷ b ∷ bs))
]

sort-IsSorted : (rest : List ℤ) → IsSorted (sort rest)
unfolding sort
sort-IsSorted [] = tt
sort-IsSorted (a ∷ rest) = insert_sorted-IsSorted a (sort rest) (sort-IsSorted rest)

sort-perm : (rest : List ℤ) → Perm (sort rest) rest
unfolding sort
sort-perm [] = Perm.refl []
sort-perm (a ∷ rest) = Perm.trans (insert_sorted-perm a (sort rest)) (Perm.cons a (sort-perm rest))

scan-tasks :
    (names : List (List ℕ)) (pids : List ℤ)
    → All IsTask names
    → scan_entries task_dir_filter names 0 pids ≡ ok (0, pids ++ task_numbers names)
unfolding scan_entries
scan-tasks [] pids h = ap (λ ps. ok (0, ps)) (sym (append-nil pids))
scan-tasks ([] ∷ names) pids h = scan-tasks names pids h.1
scan-tasks ((c ∷ cs) ∷ names) pids h = elim (Bool-cases (starts_with_digit (c ∷ cs))) [
  | inr n ↦ rw n (scan-tasks names pids h.1)
  | inl y ↦
      let (d, le) = h.0 y in
      let read = ap atoi (ap (◌∷◌ c) (sym (append-nil cs))) ∙ atoi-spelled [] c cs [] tt d tt le in
      rw (y, read)
        (scan-tasks names (pids ++ (pos (spelled 0 (c ∷ cs)) ∷ [])) h.1
          ∙ ap (λ ps. ok (0, ps))
              (append_assoc pids (pos (spelled 0 (c ∷ cs)) ∷ []) (task_numbers names)))
]

-- Where every name in /proc/self/task that starts with a digit is a number that an `int` holds,
-- `threads()` passes the assertion of `scanDir` and gives these numbers, each as often as it is
-- there, in ascending order.
pub threads-IsSorted :
    (names : List (List ℕ))
    → All IsTask names
    → (pids : List ℤ) × (threads (some names) ≡ ok pids)
      × IsSorted pids
      × Perm pids (task_numbers names)
unfolding threads scan_dir
threads-IsSorted names h = (
  sort (task_numbers names),
  rw (scan-tasks names [] h) refl,
  sort-IsSorted (task_numbers names),
  sort-perm (task_numbers names),
)
