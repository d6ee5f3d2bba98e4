-- ===== src/Timer/Set.antt =====
-- `std::set<Entry>`: an insertion keeps the order and adds just the entry; `lower_bound` at the
-- sentry of `getExpired` parts the expired entries from the others.
use mathlib.Core.List.{Perm}
use mathlib.Core.List.Perm
use transfer_server.Prelude.{
  ℕ, ◌<◌, ◌≡◌, ◌≢◌, ◌↔◌, refl, sym, ap, true, false, List, [], ◌∷◌, ◌++◌, map, arith, All, Free,
  Distinct, Bool-cases, inl, inr,
}
use transfer_server.Timestamp.{Timestamp, before}
use transfer_server.Timer.{
  Entry, entry_lt, uintptr_max, set_insert, split_at_bound, is_later, is_earliest,
}

abbrev pub Below : Entry → List Entry → Type 0
Below e = All (λ x. entry_lt e x ≡ true)

-- Strictly increasing.
abbrev pub Sorted : List Entry → Type 0
Sorted [] = Unit {0}
Sorted (x ∷ xs) = Below x xs × Sorted xs

abbrev pub addresses : List Entry → List ℕ
addresses = map (λ e. e.1)

entry_lt_trans : (a b c : Entry) → entry_lt a b ≡ true → entry_lt b c ≡ true → entry_lt a c ≡ true
entry_lt_trans (t, p) (u, q) (v, r) h k = ground arith

Below-trans : (a b : Entry) (xs : List Entry) → entry_lt a b ≡ true → Below b xs → Below a xs
Below-trans a b [] h k = tt
Below-trans a b (x ∷ xs) h k = (entry_lt_trans a b x h k.0, Below-trans a b xs h k.1)

pub All-set_insert {κ} :
    (P : Entry → Type κ) (e : Entry) (xs : List Entry) → P e → All P xs → All P (set_insert e xs).0
unfolding set_insert
All-set_insert P e [] h k = (h, tt)
All-set_insert P e (x ∷ xs) h k = elim (Bool-cases (entry_lt e x)) [
  | inl lt ↦ rw lt (h, k)
  | inr ge ↦ elim (Bool-cases (entry_lt x e)) [
    | inl gt ↦ rw (ge, gt) (k.0, All-set_insert P e xs h k.1)
    | inr eq ↦ rw (ge, eq) k
  ]
]

pub Sorted-set_insert : (e : Entry) (xs : List Entry) → Sorted xs → Sorted (set_insert e xs).0
unfolding set_insert
Sorted-set_insert e [] s = (tt, tt)
Sorted-set_insert e (x ∷ xs) s = elim (Bool-cases (entry_lt e x)) [
  | inl lt ↦ rw lt ((lt, Below-trans e x xs lt s.0), s)
  | inr ge ↦ elim (Bool-cases (entry_lt x e)) [
    | inl gt ↦
        rw (ge, gt)
          (All-set_insert (λ y. entry_lt x y ≡ true) e xs gt s.0, Sorted-set_insert e xs s.1)
    | inr eq ↦ rw (ge, eq) s
  ]
]

entry_ne :
    (t u : Timestamp) (p q : ℕ)
    → entry_lt (t, p) (u, q) ≡ false
    → entry_lt (u, q) (t, p) ≡ false
    → q ≡ p
entry_ne t u p q h k = ground arith

-- An entry whose timer is not in the set is new.
pub set_insert-fresh :
    (t : Timestamp) (p : ℕ) (xs : List Entry)
    → Free p (addresses xs)
    → (set_insert (t, p) xs).1 ≡ true
unfolding set_insert
set_insert-fresh t p [] f = refl
set_insert-fresh t p ((u, q) ∷ xs) f = elim (Bool-cases (entry_lt (t, p) (u, q))) [
  | inl lt ↦ rw lt refl
  | inr ge ↦ elim (Bool-cases (entry_lt (u, q) (t, p))) [
    | inl gt ↦ rw (ge, gt) (set_insert-fresh t p xs f.1)
    | inr eq ↦ absurd (f.0 (entry_ne t u p q ge eq))
  ]
]

-- An insertion of a new entry adds it and nothing else.
pub set_insert-perm :
    (e : Entry) (xs : List Entry) → (set_insert e xs).1 ≡ true → Perm (set_insert e xs).0 (e ∷ xs)
unfolding set_insert
set_insert-perm e [] h = Perm.refl _
set_insert-perm e (x ∷ xs) h = elim (Bool-cases (entry_lt e x)) [
  | inl lt ↦ rw lt (Perm.refl _)
  | inr ge ↦ elim (Bool-cases (entry_lt x e)) [
    | inl gt ↦
        rw (ge, gt)
          (Perm.trans (Perm.cons x (set_insert-perm e xs (ground arith))) (Perm.swap e x xs))
    | inr eq ↦ absurd (ground arith)
  ]
]

pub Free-set_insert :
    (c p : ℕ) (t : Timestamp) (xs : List Entry)
    → c ≢ p
    → Free c (addresses xs)
    → Free c (addresses (set_insert (t, p) xs).0)
unfolding set_insert
Free-set_insert c p t [] h f = (λ e. h (sym e), tt)
Free-set_insert c p t ((u, q) ∷ xs) h f = elim (Bool-cases (entry_lt (t, p) (u, q))) [
  | inl lt ↦ rw lt ((λ e. h (sym e)), f)
  | inr ge ↦ elim (Bool-cases (entry_lt (u, q) (t, p))) [
    | inl gt ↦ rw (ge, gt) (f.0, Free-set_insert c p t xs h f.1)
    | inr eq ↦ rw (ge, eq) f
  ]
]

pub Distinct-set_insert :
    (p : ℕ) (t : Timestamp) (xs : List Entry)
    → Free p (addresses xs)
    → Distinct (addresses xs)
    → Distinct (addresses (set_insert (t, p) xs).0)
unfolding set_insert
Distinct-set_insert p t [] f d = (tt, tt)
Distinct-set_insert p t ((u, q) ∷ xs) f d = elim (Bool-cases (entry_lt (t, p) (u, q))) [
  | inl lt ↦ rw lt ((λ e. f.0 e, f.1), d)
  | inr ge ↦ elim (Bool-cases (entry_lt (u, q) (t, p))) [
    | inl gt ↦ rw (ge, gt) (Free-set_insert q p t xs f.0 d.0, Distinct-set_insert p t xs f.1 d.1)
    | inr eq ↦ rw (ge, eq) d
  ]
]

-- On a set in order, `insert` reports exactly whether the new entry expires before all that were
-- there.
pub is_earliest_iff :
    (t : Timestamp) (xs : List Entry)
    → Sorted xs
    → (is_earliest t xs ≡ true) ↔ All (λ x. before t x.0 ≡ true) xs
is_earliest_iff t [] s = (λ e. tt, λ a. refl)
is_earliest_iff t ((u, q) ∷ xs) s = (λ e. (e, later u q xs e s.0), λ a. a.0)
  where
    later :
        (u : Timestamp) (q : ℕ) (xs : List Entry)
        → before t u ≡ true
        → Below (u, q) xs
        → All (λ x. before t x.0 ≡ true) xs
    later u q [] e b = tt
    later u q ((v, r) ∷ xs) e b = (ground (arith, b.0), later u q xs e b.1)

-- The entry has expired at `now`; it has not.
abbrev pub Due : Timestamp → Entry → Type 0
Due now x = before now x.0 ≡ false

abbrev pub Later : Timestamp → Entry → Type 0
Later now x = before now x.0 ≡ true

abbrev pub sentry : Timestamp → Entry
sentry now = (now, uintptr_max)

sentry_due :
    (now t : Timestamp) (p : ℕ) → entry_lt (t, p) (sentry now) ≡ true → before now t ≡ false
sentry_due now t p h = ground arith

sentry_later :
    (now t : Timestamp) (p : ℕ)
    → p < uintptr_max
    → entry_lt (t, p) (sentry now) ≡ false
    → before now t ≡ true
sentry_later now t p h k = ground arith

before-Below :
    (now : Timestamp) (x : Entry) (xs : List Entry) → Later now x → Below x xs → All (Later now) xs
before-Below now x [] h b = tt
before-Below now (t, p) ((u, q) ∷ xs) h b = (ground (arith, b.0), before-Below now (t, p) xs h b.1)

-- On a set in order whose addresses lie below UINTPTR_MAX, `lower_bound` at the sentry parts the
-- set in two: before it stand the entries that have expired, from it on those that have not.
pub split_lem :
    (now : Timestamp) (xs : List Entry)
    → Sorted xs
    → All (λ p. p < uintptr_max) (addresses xs)
    → let (us, vs) = split_at_bound (sentry now) xs in
      (xs ≡ us ++ vs) × All (Due now) us × All (Later now) vs × Sorted vs
unfolding split_at_bound
split_lem now [] s a = (refl, tt, tt, tt)
split_lem now ((t, p) ∷ xs) s a = elim (Bool-cases (entry_lt (t, p) (sentry now))) [
  | inl lt ↦
      let ih = split_lem now xs s.1 a.1 in
      rw lt (ap (◌∷◌ (t, p)) ih.0, (sentry_due now t p lt, ih.1), ih.2, ih.3)
  | inr ge ↦
      let l = sentry_later now t p a.0 ge in
      rw ge (refl, tt, (l, before-Below now (t, p) xs l s.0), s)
]

pub is_later-All : (now : Timestamp) (xs : List Entry) → All (Later now) xs → is_later now xs ≡ true
is_later-All now [] a = refl
is_later-All now (x ∷ xs) a = a.0
