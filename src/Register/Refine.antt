-- ===== src/Register/Refine.antt =====
-- The two maps and the counter against one partial function from clients to values.
use transfer_server.Prelude.{
  ℕ, ◌+◌, ◌≤◌, ◌<◌, ◌≡◌, refl, ◌∙◌, subst, List, [], ◌∷◌, Option, none, some, Checked, ok, abort,
  ◌>>=◌, arith, if◌then◌else◌, or_else, bytes_eq, bytes_eq_iff, dec_lt, Option-cases, inl, inr,
  length, find,
}
use transfer_server.Register.{
  RegisterTable, int_max, next_int, entry, my_register, my_unregister, get_value, add_value,
}
use transfer_server.Register.Value.{
  Inv, value, registered, entry-none, registered-Inv, value-registered, unregistered,
  unregistered-Inv, value-unregistered, added, added-Inv, value-added,
}

pub data Op : Type 0 where
  registers unregisters adds queries : List ℕ → Op

-- The answers to the queries of a sequence of calls.
pub run : RegisterTable → List Op → Checked (List ℕ)
run t [] = ok []
run t (registers k ∷ ops) = my_register t k >>= λ t'. run t' ops
run t (unregisters k ∷ ops) = run (my_unregister t k) ops
run t (adds k ∷ ops) = add_value t k >>= λ t'. run t' ops
run t (queries k ∷ ops) = run t ops >>= λ out. ok (get_value t k ∷ out)

abbrev pub Values : Type 0
Values = List ℕ → Option ℕ

abbrev pub update : Values → List ℕ → Option ℕ → Values
update f k o j = if bytes_eq k j then o else f j

-- A client's value starts at 1, can be counted up and forgotten, and reads as 0 if there is none.
pub run_values : Values → List Op → Checked (List ℕ)
run_values f [] = ok []
run_values f (registers k ∷ ops) = run_values (update f k (some (or_else (f k) 1))) ops
run_values f (unregisters k ∷ ops) = run_values (update f k none) ops
run_values f (adds k ∷ ops) = elim (f k) [
  | none ↦ run_values f ops
  | some v ↦ next_int v >>= λ n. run_values (update f k (some n)) ops
]
run_values f (queries k ∷ ops) = run_values f ops >>= λ out. ok (or_else (f k) 0 ∷ out)

-- The table holds the values of `f`.
pub record Shows (t : RegisterTable) (f : Values) : Type 0 where
  pub inv : Inv t
  pub same : (j : List ℕ) → value t j ≡ f j

module _ (t : RegisterTable) (f : Values) (s : Shows t f) (k : List ℕ) where
  pub query-Shows : get_value t k ≡ or_else (f k) 0
  unfolding get_value value
  query-Shows = ground (arith, s.same k)

  known : (id v : ℕ) → entry t k ≡ some (id, v) → f k ≡ some v
  unfolding value
  known id v e = ground (arith, s.same k)

  unknown : entry t k ≡ none → f k ≡ none
  unfolding value
  unknown e = ground (arith, s.same k)

  pub register-Shows :
      t.count < int_max
      → (t' : RegisterTable) × (my_register t k ≡ ok t')
        × Shows t' (update f k (some (or_else (f k) 1)))
        × (t'.count ≤ t.count + 1)
  unfolding my_register registered
  register-Shows h = elim (Option-cases (entry t k)) [
    | inl n ↦
        let free = entry-none t s.inv k n in
        (
          registered t k,
          ground arith,
          record {
            inv = registered-Inv t s.inv k free;
            same = λ j. value-registered t s.inv k j free ∙ ground (arith, unknown n, s.same j);
          },
          omega arith,
        )
    | inr ((id, v), old) ↦ (
      t,
      ground arith,
      record {
        inv = s.inv;
        same = λ j. ground (arith, known id v old, s.same j, bytes_eq_iff k j);
      },
      omega arith,
    )
  ]

  -- A registration that goes through.
  pub register-ok :
      (t' : RegisterTable)
      → my_register t k ≡ ok t'
      → Shows t' (update f k (some (or_else (f k) 1)))
  unfolding my_register
  register-ok t' e = elim (Option-cases (entry t k)) [
    | inl n ↦ elim (dec_lt t.count int_max) [
      | yes h ↦
          let (t₁, q, s₁, le) = register-Shows h in
          let same : t₁ ≡ t' = ground (arith, q, e) in
          subst (λ x. Shows x (update f k (some (or_else (f k) 1)))) same s₁
      | no h ↦ absurd (ground (arith, n, e, h))
    ]
    | inr ((id, v), old) ↦
        let same : t ≡ t' = ground (arith, old, e) in
        subst (λ x. Shows x (update f k (some (or_else (f k) 1)))) same
          record {
            inv = s.inv;
            same = λ j. ground (arith, known id v old, s.same j, bytes_eq_iff k j);
          }
  ]

  pub unregister-Shows :
      (t' : RegisterTable) × (my_unregister t k ≡ t')
      × Shows t' (update f k none)
      × (t'.count ≡ t.count)
  unfolding my_unregister
  unregister-Shows = elim (Option-cases (entry t k)) [
    | inl n ↦ (
      t,
      ground arith,
      record { inv = s.inv; same = λ j. ground (arith, unknown n, s.same j, bytes_eq_iff k j) },
      refl,
    )
    | inr ((id, v), old) ↦ (
      unregistered t s.inv k id v old,
      ground arith,
      record {
        inv = unregistered-Inv t s.inv k id v old;
        same = λ j. value-unregistered t s.inv k id v old j ∙ ground (arith, s.same j);
      },
      refl,
    )
  ]

  add-none : f k ≡ none → add_value t k ≡ ok t
  unfolding add_value
  add-none e = elim (Option-cases (entry t k)) [
    | inl n ↦ ground arith
    | inr ((id, v), old) ↦ cc (known id v old)
  ]

  pub add-Shows :
      (v : ℕ)
      → f k ≡ some v
      → v < int_max
      → (t' : RegisterTable) × (add_value t k ≡ ok t')
        × Shows t' (update f k (some (v + 1)))
        × (t'.count ≡ t.count)
  unfolding add_value
  add-Shows v e h = elim (Option-cases (entry t k)) [
    | inl n ↦ cc (unknown n)
    | inr ((id, w), old) ↦
        let q : w ≡ v = ground (arith, known id w old) in
        (
          added t s.inv k id w old,
          ground (arith, q),
          record {
            inv = added-Inv t s.inv k id w old;
            same = λ j. value-added t s.inv k id w old j ∙ ground (arith, s.same j, q);
          },
          refl,
        )
  ]

  add-abort : (v : ℕ) → f k ≡ some v → int_max ≤ v → add_value t k ≡ abort
  unfolding add_value
  add-abort v e h = elim (Option-cases (entry t k)) [
    | inl n ↦ cc (unknown n)
    | inr ((id, w), old) ↦ ground (arith, known id w old)
  ]

-- From a table that shows the values of a function, every sequence of calls answers its queries as
-- the function does, and aborts exactly where a value would pass `INT_MAX`, if there are ids left
-- for as many registrations as there are calls.
pub run-run_values :
    (ops : List Op) (t : RegisterTable) (f : Values)
    → Shows t f
    → t.count + length ops ≤ int_max
    → run t ops ≡ run_values f ops
unfolding run run_values
run-run_values [] t f s h = refl
run-run_values (registers k ∷ ops) t f s h =
    let (t', e, s', le) = register-Shows t f s k (omega arith) in
    rw e (run-run_values ops t' _ s' (omega arith))
run-run_values (unregisters k ∷ ops) t f s h =
    let (t', e, s', le) = unregister-Shows t f s k in
    rw e (run-run_values ops t' _ s' (omega arith))
run-run_values (queries k ∷ ops) t f s h =
    rw (run-run_values ops t f s (omega arith), query-Shows t f s k) refl
run-run_values (adds k ∷ ops) t f s h = elim (Option-cases (f k)) [
  | inl n ↦
      let ih = run-run_values ops t f s (omega arith) in ground (arith, add-none t f s k n, ih)
  | inr (v, e) ↦ elim (dec_lt v int_max) [
    | yes lt ↦
        let (t', q, s', le) = add-Shows t f s k v e lt in
        let ih = run-run_values ops t' _ s' (omega arith) in ground (arith, q, ih)
    | no ge ↦ ground (arith, add-abort t f s k v e (omega arith))
  ]
]

-- The table as it is at the start.
abbrev pub empty : RegisterTable
empty = record { count = 0; for_id = []; choose = [] }

pub empty-Shows : Shows empty (λ k. none)
unfolding value find
empty-Shows = record {
  inv = record {
    fresh = λ id v h. ground arith;
    backed = λ k id h. absurd (ground arith);
    apart = λ j k id h h'. ground arith;
  };
  same = λ j. refl;
}
