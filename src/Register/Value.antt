-- ===== src/Register/Value.antt =====
-- The invariant of the table, and what each operation does to the value of every client.
use transfer_server.Prelude.{
  ℕ, ◌+◌, ◌<◌, ◌≡◌, List, Option, none, some, arith, if◌then◌else◌, find, insert, assign, erase,
  find-insert, find-assign, find-erase, nat_eq, bytes_instance, bytes_eq, bytes_eq_iff,
  Option-cases, inl, inr, ◌==◌, ◌⊎◌, ◌≢◌,
}
use transfer_server.Register.{RegisterTable, entry}

-- Ids are in use below `count_` only, no two clients share one, and each has a value.
pub record Inv (t : RegisterTable) : Type 0 where
  pub fresh : (id v : ℕ) → find id t.choose ≡ some v → id < t.count
  pub backed :
      (k : List ℕ) (id : ℕ) → find k t.for_id ≡ some id → (v : ℕ) × (find id t.choose ≡ some v)
  pub apart :
      (j k : List ℕ) (id : ℕ) → find j t.for_id ≡ some id → find k t.for_id ≡ some id → j ≡ k

-- The value of a client, if it is registered.
unfoldable pub value : RegisterTable → List ℕ → Option ℕ
unfolding entry
value t k = elim (entry t k) [ some (id, v) ↦ some v | none ↦ none ]

unfoldable pub registered : RegisterTable → List ℕ → RegisterTable
registered t k = record {
  count = t.count + 1;
  for_id = insert k t.count t.for_id;
  choose = insert t.count 1 t.choose;
}

module _ (t : RegisterTable) (i : Inv t) where
  pub entry-none : (k : List ℕ) → entry t k ≡ none → find k t.for_id ≡ none
  unfolding entry
  entry-none k e = elim (Option-cases (find k t.for_id)) [
    | inl n ↦ n
    | inr (id, h) ↦ let (v, b) = i.backed k id h in ground (arith, h, b)
  ]

  -- The next id is not in use.
  count-free : find t.count t.choose ≡ none
  count-free = elim (Option-cases (find t.count t.choose)) [
    | inl n ↦ n
    | inr (v, h) ↦ absurd (omega (arith, i.fresh t.count v h))
  ]

  for_id-lt : (k : List ℕ) (id : ℕ) → find k t.for_id ≡ some id → id < t.count
  for_id-lt k id h = let (v, b) = i.backed k id h in i.fresh id v b

  module _ (k : List ℕ) (e : find k t.for_id ≡ none) where
    -- Who has an id after the registration.
    for_id-registered :
        (j : List ℕ) (id : ℕ)
        → find j (registered t k).for_id ≡ some id
        → ((k ≡ j) × (id ≡ t.count)) ⊎ (find j t.for_id ≡ some id)
    unfolding registered
    for_id-registered j id h = ground (arith, find-insert k j t.count t.for_id, bytes_eq_iff k j)

    choose-registered : find t.count (registered t k).choose ≡ some 1
    unfolding registered
    choose-registered = ground (arith, find-insert t.count t.count 1 t.choose, count-free)

    choose-kept : (id v : ℕ) → find id t.choose ≡ some v → find id (registered t k).choose ≡ some v
    unfolding registered
    choose-kept id v h = ground (arith, find-insert t.count id 1 t.choose, i.fresh id v)

    pub registered-Inv : Inv (registered t k)
    unfolding registered
    registered-Inv = record {
      fresh = λ id v h. ground (arith, find-insert t.count id 1 t.choose, i.fresh id v, count-free);
      backed = λ j id h. elim (for_id-registered j id h) [
        | inl (_, q) ↦ (1, rw q choose-registered)
        | inr old ↦ let (v, b) = i.backed j id old in (v, choose-kept id v b)
      ];
      apart = λ j l id h h'. ground (
        arith,
        for_id-registered j id h,
        for_id-registered l id h',
        for_id-lt j id,
        for_id-lt l id,
        i.apart j l id,
      );
    }

  -- An entry is an id of the client with its value.
  pub entry-some :
      (k : List ℕ) (id v : ℕ)
      → entry t k ≡ some (id, v)
      → (find k t.for_id ≡ some id) × (find id t.choose ≡ some v)
  unfolding entry
  entry-some k id v e = ground arith

  pub value-registered :
      (k j : List ℕ)
      → find k t.for_id ≡ none
      → value (registered t k) j ≡ (if bytes_eq k j then some 1 else value t j)
  unfolding value registered
  value-registered k j e = elim (Option-cases (find j t.for_id)) [
    | inl n ↦ ground (
      arith,
      find-insert k j t.count t.for_id,
      bytes_eq_iff k j,
      find-insert t.count t.count 1 t.choose,
      count-free,
    )
    | inr (id, h) ↦ ground (
      arith,
      find-insert k j t.count t.for_id,
      bytes_eq_iff k j,
      find-insert t.count t.count 1 t.choose,
      find-insert t.count id 1 t.choose,
      count-free,
      for_id-lt j id h,
      e,
      h,
    )
  ]

  module _ (k : List ℕ) (id v : ℕ) (e : entry t k ≡ some (id, v)) where
    abbrev pub unregistered : RegisterTable
    unregistered = record t { for_id = erase k t.for_id; choose = erase id t.choose }

    pub unregistered-Inv : Inv unregistered
    unregistered-Inv = record {
      fresh = λ id' w h. ground (arith, find-erase id id' t.choose, i.fresh id' w);
      backed = λ j id' h.
          let old : (find j t.for_id ≡ some id') × (id ≢ id') = kept j id' h in
          let (w, b) = i.backed j id' old.0 in
          (w, ground (arith, find-erase id id' t.choose, old.1));
      apart = λ j l id' h h'. ground (arith, kept j id' h, kept l id' h', i.apart j l id');
    }
      where
        kept :
            (j : List ℕ) (id' : ℕ)
            → find j (erase k t.for_id) ≡ some id'
            → (find j t.for_id ≡ some id') × (id ≢ id')
        kept j id' h =
            let s = entry-some k id v e in
            (
              ground (arith, find-erase k j t.for_id),
              ground (arith, find-erase k j t.for_id, bytes_eq_iff k j, i.apart k j id),
            )

    pub value-unregistered :
        (j : List ℕ) → value unregistered j ≡ (if bytes_eq k j then none else value t j)
    unfolding value
    value-unregistered j = elim (Option-cases (find j t.for_id)) [
      | inl n ↦ ground (arith, find-erase k j t.for_id)
      | inr (id', h) ↦ ground (
        arith,
        find-erase k j t.for_id,
        bytes_eq_iff k j,
        find-erase id id' t.choose,
        entry-some k id v e,
        i.apart k j id,
        h,
      )
    ]

    abbrev pub added : RegisterTable
    added = record t { choose = assign id (v + 1) t.choose }

    pub added-Inv : Inv added
    added-Inv = record {
      fresh = λ id' w h. ground (
        arith,
        find-assign id id' (v + 1) t.choose,
        i.fresh id' w,
        i.fresh id v,
        entry-some k id v e,
      );
      backed = λ j id' h.
          let (w, b) = i.backed j id' h in
          ((if id == id' then v + 1 else w), ground (arith, find-assign id id' (v + 1) t.choose));
      apart = i.apart;
    }

    pub value-added :
        (j : List ℕ) → value added j ≡ (if bytes_eq k j then some (v + 1) else value t j)
    unfolding value
    value-added j = elim (Option-cases (find j t.for_id)) [
      | inl n ↦ ground (arith, bytes_eq_iff k j, entry-some k id v e)
      | inr (id', h) ↦ ground (
        arith,
        bytes_eq_iff k j,
        find-assign id id' (v + 1) t.choose,
        entry-some k id v e,
        i.apart k j id,
        h,
      )
    ]
