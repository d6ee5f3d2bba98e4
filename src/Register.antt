-- ===== src/Register.antt =====
-- include/RegisterTable.h and src/RegisterTable.cpp: how far each client is in the handshake.
-- `forId_` gives a client an id, `choose_` gives an id a value. `count_`, a static member, is a
-- field of the state. An `int` that would pass `INT_MAX` is undefined behaviour, here `abort`.
pub mod Value
pub mod Refine
use transfer_server.Prelude.{
  ℕ, ◌+◌, ◌-◌, ◌^◌, Bool, true, false, List, Option, none, some, Checked, ok, abort, ◌>>=◌,
  if◌then◌else◌, ltb, find, insert, assign, erase, nat_eq, bytes_instance,
}

pub record RegisterTable : Type 0 where
  pub count : ℕ
  pub for_id : List (List ℕ × ℕ)
  pub choose : List (ℕ × ℕ)

abbrev pub int_max : ℕ
int_max = 2 ^ 31 - 1

-- `n + 1` on a non-negative `int`.
abbrev pub next_int : ℕ → Checked ℕ
next_int n = if ltb n int_max then ok (n + 1) else abort

-- `forId_.find(conn) != end() && choose_.find(forId_[conn]) != end()`, with the two entries.
unfoldable pub entry : RegisterTable → List ℕ → Option (ℕ × ℕ)
entry t conn = elim (find conn t.for_id) [
  | none ↦ none
  | some id ↦ elim (find id t.choose) [ none ↦ none | some v ↦ some (id, v) ]
]

unfoldable pub my_register : RegisterTable → List ℕ → Checked RegisterTable
unfolding entry
my_register t conn = elim (entry t conn) [
  | some _ ↦ ok t
  | none ↦ next_int t.count >>= λ n. ok (record {
    count = n;
    for_id = insert conn t.count t.for_id;
    choose = insert t.count 1 t.choose;
  })
]

unfoldable pub my_unregister : RegisterTable → List ℕ → RegisterTable
unfolding entry
my_unregister t conn = elim (entry t conn) [
  | some (id, v) ↦ record t { for_id = erase conn t.for_id; choose = erase id t.choose }
  | none ↦ t
]

unfoldable pub get_value : RegisterTable → List ℕ → ℕ
unfolding entry
get_value t conn = elim (entry t conn) [ some (id, v) ↦ v | none ↦ 0 ]

unfoldable pub add_value : RegisterTable → List ℕ → Checked RegisterTable
unfolding entry
add_value t conn = elim (entry t conn) [
  | some (id, v) ↦ next_int v >>= λ n. ok (record t { choose = assign id n t.choose })
  | none ↦ ok t
]
