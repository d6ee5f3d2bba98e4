-- ===== src/TcpServer/Names.antt =====
-- The map of connections: a new connection never takes the place of another, and each is removed
-- once.
use transfer_server.Prelude.{
  ℕ, ◌+◌, ◌<◌, ◌≡◌, refl, List, [], ◌∷◌, ◌++◌, none, some, ok, abort, arith, if◌then◌else◌, find,
  erase, find-assign, find-erase, bytes_instance, bytes_eq, bytes_eq_iff, Option-cases, Bool-cases,
  inl, inr,
}
use transfer_server.Register.{int_max}
use transfer_server.TcpServer.{
  Conn, TcpServer, ThreadPool, conn_name, established, get_next_loop, new_connection,
  remove_connection_in_loop, connect_destroyed, leave,
}

-- Each connection is under its own name, which has a number that was given before.
pub record Inv (digits : ℕ → List ℕ) (s : TcpServer) : Type 0 where
  pub under_name : (k : List ℕ) (c : Conn) → find k s.connections ≡ some c → c.name ≡ k
  pub numbered :
      (k : List ℕ) (c : Conn)
      → find k s.connections ≡ some c
      → (i : ℕ) × (i < s.next_conn_id) × (k ≡ conn_name digits s.name i)

tail_eq : {x y : ℕ} {ys zs : List ℕ} → x ∷ ys ≡ y ∷ zs → ys ≡ zs
tail_eq e = cc

cancel : (xs : List ℕ) {ys zs : List ℕ} → xs ++ ys ≡ xs ++ zs → ys ≡ zs
cancel [] e = e
cancel (x ∷ xs) e = cancel xs (tail_eq e)

pub conn_name-injective :
    (digits : ℕ → List ℕ) (name : List ℕ) (i j : ℕ)
    → ((m n : ℕ) → digits m ≡ digits n → m ≡ n)
    → conn_name digits name i ≡ conn_name digits name j
    → i ≡ j
conn_name-injective digits name i j inj e = inj i j (tail_eq (cancel name e))

module _ (digits : ℕ → List ℕ) (inj : (m n : ℕ) → digits m ≡ digits n → m ≡ n) (s : TcpServer)
    (i : Inv digits s) where
  pub name_free : find (conn_name digits s.name s.next_conn_id) s.connections ≡ none
  name_free = elim (Option-cases (find (conn_name digits s.name s.next_conn_id) s.connections)) [
    | inl n ↦ n
    | inr (c, h) ↦
        let (j, lt, e) = i.numbered (conn_name digits s.name s.next_conn_id) c h in
        absurd (omega (arith, conn_name-injective digits s.name s.next_conn_id j inj e))
  ]

  module _ (fd io_loop next : ℕ) (pool : ThreadPool) (more : s.next_conn_id < next) where
    abbrev pub new_name : List ℕ
    new_name = conn_name digits s.name s.next_conn_id

    abbrev pub new_conn : Conn
    new_conn = record { name = new_name; fd = fd; io_loop = io_loop }

    pub found :
        (k : List ℕ)
        → find k (established digits fd io_loop pool next s).connections
          ≡ (if bytes_eq new_name k then some new_conn else find k s.connections)
    found k = find-assign new_name k new_conn s.connections

    pub established-Inv : Inv digits (established digits fd io_loop pool next s)
    established-Inv = record {
      under_name = λ k c h. ground (arith, found k, bytes_eq_iff new_name k, i.under_name k c);
      numbered = λ k c h. elim (Bool-cases (bytes_eq new_name k)) [
        | inl e ↦ (s.next_conn_id, more, ground (arith, bytes_eq_iff new_name k))
        | inr n ↦ let (j, lt, e) = i.numbered k c (ground (arith, found k)) in (j, omega arith, e)
      ];
    }

-- Where the invariant of the names holds, a new connection gets a name that no connection has, so
-- none is lost from the map: it is found under the new name, with the loop that the pool gave, and
-- all others are found as before. There must be a number left for it and a loop, and the digits
-- must tell the numbers apart.
pub new_connection-found :
    (digits : ℕ → List ℕ) (fd io_loop : ℕ) (pool : ThreadPool) (s : TcpServer)
    → ((m n : ℕ) → digits m ≡ digits n → m ≡ n)
    → Inv digits s
    → s.next_conn_id < int_max
    → get_next_loop s.pool ≡ ok (io_loop, pool)
    → let name = conn_name digits s.name s.next_conn_id in
      (s' : TcpServer) × (new_connection digits fd s ≡ ok s')
      × Inv digits s'
      × (find name s.connections ≡ none)
      × ((k : List ℕ)
          → find k s'.connections ≡ (
              if bytes_eq name k
              then some (record { name = name; fd = fd; io_loop = io_loop })
              else find k s.connections))
unfolding new_connection
new_connection-found digits fd io_loop pool s inj i lt e = (
  established digits fd io_loop pool (s.next_conn_id + 1) s,
  ground (arith, e),
  established-Inv digits inj s i fd io_loop (s.next_conn_id + 1) pool (omega arith),
  name_free digits inj s i,
  found digits inj s i fd io_loop (s.next_conn_id + 1) pool (omega arith),
)

-- Where the invariant of the names holds, a connection whose name is in the map is removed, and no
-- other, and the invariant holds again; its destruction is left to its loop. A second removal of it
-- stops at `assert(n==1)`.
pub remove_connection-found :
    (digits : ℕ → List ℕ) (conn c : Conn) (s : TcpServer)
    → Inv digits s
    → find conn.name s.connections ≡ some c
    → (s' : TcpServer) × (remove_connection_in_loop conn s ≡ ok s')
      × Inv digits s'
      × ((k : List ℕ)
          → find k s'.connections ≡ (if bytes_eq conn.name k then none else find k s.connections))
      × (s'.left ≡ s.left ++ (connect_destroyed conn ∷ []))
      × (remove_connection_in_loop conn s' ≡ abort)
unfolding remove_connection_in_loop
remove_connection-found digits conn c s i e =
    let gone = λ (k : List ℕ). find-erase conn.name k s.connections in
    (
      leave (connect_destroyed conn) (record s { connections = erase conn.name s.connections }),
      ground (arith, e),
      record {
        under_name = λ k c h. i.under_name k c (ground (arith, gone k));
        numbered = λ k c h. i.numbered k c (ground (arith, gone k));
      },
      gone,
      refl,
      ground (arith, gone conn.name, bytes_eq_iff conn.name conn.name),
    )
