-- ===== src/TcpServer/Turns/Played.antt =====
-- The calls that are left to the loops pass the assertions of the connections.
use transfer_server.Prelude.{
  ℕ, ◌<◌, ◌≡◌, refl, ap, ◌∙◌, Bool, true, List, [], ◌∷◌, ◌++◌, none, some, ok, if◌then◌else◌, ◌>>=◌,
  arith, find, assign, erase, find-assign, find-erase, bytes_instance, bytes_eq, bytes_eq_iff,
  Option-cases, Bool-cases, inl, inr, bind-ok, subst,
}
use transfer_server.Register.{next_int}
use transfer_server.TcpConnection.{
  TcpConnection, ConnState, same_state, connected, disconnecting, disconnected,
}
use transfer_server.TcpConnection.Made.{
  made, create-made, set_up, torn_down, connect_established-up, connect_destroyed-down,
}
use transfer_server.TcpServer.{
  ThreadPool, Conn, Task, connect_established, connect_destroyed, TcpServer, conn_name, established,
  leave, get_next_loop, new_connection, remove_connection_in_loop,
}
use transfer_server.TcpServer.Names.{conn_name-injective}
use transfer_server.TcpServer.Turns.{Turns, turn, turns, Op, accepts, closes, step, run}

turns-append :
    (h : Bool) (ts : List Task) (t : Task) (m m' : Turns)
    → turns h ts m ≡ ok m'
    → turns h (ts ++ (t ∷ [])) m ≡ (turn h t m' >>= λ m''. ok m'')
unfolding turns
turns-append h [] t m m' e = cc
turns-append h (u ∷ ts) t m m' e =
    let (m₁, first, rest) = bind-ok (turn h u m) (turns h ts) m' e in
    rw first (turns-append h ts t m₁ m' rest)

-- What `connectDestroyed` asks for.
abbrev standing : ConnState → Bool
standing st = if same_state st connected then true else same_state st disconnecting

-- After the turns, the connections of the map are up and the others are down.
pub record Inv (digits : ℕ → List ℕ) (h : Bool) (s : TcpServer) (m : Turns) : Type 0 where
  pub passed : turns h s.left [] ≡ ok m
  pub up :
      (k : List ℕ) (conn : Conn)
      → find k s.connections ≡ some conn
      → (c : TcpConnection) × (find k m ≡ some c) × (c.state ≡ connected)
  pub down :
      (k : List ℕ) (c : TcpConnection)
      → find k s.connections ≡ none
      → find k m ≡ some c
      → c.state ≡ disconnected
  pub numbered :
      (k : List ℕ) (c : TcpConnection)
      → find k m ≡ some c
      → (i : ℕ) × (i < s.next_conn_id) × (k ≡ conn_name digits s.name i)

module _ (digits : ℕ → List ℕ) (inj : (m n : ℕ) → digits m ≡ digits n → m ≡ n) (h : Bool)
    (s : TcpServer) (m : Turns) (v : Inv digits h s m) where
  unseen : find (conn_name digits s.name s.next_conn_id) m ≡ none
  unseen = elim (Option-cases (find (conn_name digits s.name s.next_conn_id) m)) [
    | inl n ↦ n
    | inr (c, e) ↦
        let (j, lt, q) = v.numbered (conn_name digits s.name s.next_conn_id) c e in
        absurd (omega (arith, conn_name-injective digits s.name s.next_conn_id j inj q))
  ]

  module _ (fd io_loop next : ℕ) (pool : ThreadPool) (more : s.next_conn_id < next) where
    abbrev name : List ℕ
    name = conn_name digits s.name s.next_conn_id

    abbrev after : Turns
    after = assign name (set_up (made h fd)) m

    found-after :
        (k : List ℕ)
        → find k after ≡ (if bytes_eq name k then some (set_up (made h fd)) else find k m)
    found-after k = find-assign name k (set_up (made h fd)) m

    established-turn :
        turn h (connect_established (record { name = name; fd = fd; io_loop = io_loop })) m
        ≡ ok after
    unfolding turn
    established-turn =
        ground (arith, unseen, create-made h fd, connect_established-up (made h fd) refl)

    accepted-Inv : Inv digits h (established digits fd io_loop pool next s) after
    accepted-Inv = record {
      passed =
          turns-append h s.left
            (connect_established (record { name = name; fd = fd; io_loop = io_loop })) [] m v.passed
          ∙ rw established-turn refl;
      up = λ k conn e. elim (Bool-cases (bytes_eq name k)) [
        | inl y ↦ (set_up (made h fd), ground (arith, found-after k), refl)
        | inr n ↦
            let (c, at, st) = v.up k conn (ground (arith, find-assign name k new s.connections)) in
            (c, ground (arith, found-after k), st)
      ];
      down = λ k c e at. elim (Bool-cases (bytes_eq name k)) [
        | inl y ↦ absurd (ground (arith, find-assign name k new s.connections))
        | inr n ↦
            v.down k c (ground (arith, find-assign name k new s.connections))
              (ground (arith, found-after k))
      ];
      numbered = λ k c at. elim (Bool-cases (bytes_eq name k)) [
        | inl y ↦ (s.next_conn_id, more, ground (arith, bytes_eq_iff name k))
        | inr n ↦
            let (j, lt, q) = v.numbered k c (ground (arith, found-after k)) in (j, omega arith, q)
      ];
    }
      where
        new : Conn
        new = record { name = name; fd = fd; io_loop = io_loop }

  -- A connection that the map has asks for its removal.
  module _ (conn x : Conn) (there : find conn.name s.connections ≡ some x) where
    abbrev gone : TcpServer
    gone = leave (connect_destroyed conn) (record s { connections = erase conn.name s.connections })

    destroyed-turn :
        (c : TcpConnection)
        → find conn.name m ≡ some c
        → c.state ≡ connected
        → turn h (connect_destroyed conn) m ≡ ok (assign conn.name (torn_down c) m)
    unfolding turn
    destroyed-turn c at st = ground (arith, at, connect_destroyed-down c (ap standing st))

    closed-Inv : (m' : Turns) × Inv digits h gone m'
    closed-Inv =
        let (c, at, st) = v.up conn.name x there in
        let passes : turn h (connect_destroyed conn) m ≡ ok (assign conn.name (torn_down c) m) =
          destroyed-turn c at st in
        let found = λ (k : List ℕ). find-assign conn.name k (torn_down c) m in
        let left_over = λ (k : List ℕ). find-erase conn.name k s.connections in
        (
          assign conn.name (torn_down c) m,
          record {
            passed = turns-append h s.left (connect_destroyed conn) [] m v.passed ∙ rw passes refl;
            up = λ k y e.
                let (d, at', st') = v.up k y (ground (arith, left_over k)) in
                (d, ground (arith, found k, left_over k), st');
            down = λ k d e at'. elim (Bool-cases (bytes_eq conn.name k)) [
              | inl y ↦ ground (arith, found k)
              | inr n ↦ v.down k d (ground (arith, left_over k)) (ground (arith, found k))
            ];
            numbered = λ k d at'. elim (Bool-cases (bytes_eq conn.name k)) [
              | inl y ↦ v.numbered k c (ground (arith, bytes_eq_iff conn.name k))
              | inr n ↦ v.numbered k d (ground (arith, found k))
            ];
          },
        )

step-Inv :
    (digits : ℕ → List ℕ) (h : Bool) (op : Op) (s s' : TcpServer) (m : Turns)
    → ((i j : ℕ) → digits i ≡ digits j → i ≡ j)
    → step digits op s ≡ ok s'
    → Inv digits h s m
    → (m' : Turns) × Inv digits h s' m'
unfolding step new_connection remove_connection_in_loop
step-Inv digits h (accepts fd) s s' m inj e v =
    let (next, counted, e₁) = bind-ok (next_int s.next_conn_id) _ s' e in
    let (r, chosen, e₂) = bind-ok (get_next_loop s.pool) _ s' e₁ in
    let made_of = accepted-Inv digits inj h s m v fd r.0 next r.1 (ground (arith, counted)) in
    let m' = assign (conn_name digits s.name s.next_conn_id) (set_up (made h fd)) m in
    (m', subst (λ (q : TcpServer). Inv digits h q m') (cc e₂) made_of)
step-Inv digits h (closes conn) s s' m inj e v =
    elim (Option-cases (find conn.name s.connections)) [
      | inl n ↦ cc (rw (n, remove_connection_in_loop) at e)
      | inr (x, there) ↦
          let (m', v') = closed-Inv digits inj h s m v conn x there in
          (m', subst (λ (q : TcpServer). Inv digits h q m') (ground (arith, e, there)) v')
    ]

start-Inv :
    (digits : ℕ → List ℕ) (h : Bool) (s : TcpServer)
    → s.connections ≡ []
    → s.left ≡ []
    → Inv digits h s []
unfolding find turns
start-Inv digits h s empty idle = record {
  passed = ap (λ ts. turns h ts []) idle;
  up = λ k conn e. cc (ap (λ cs. find k cs) empty, e);
  down = λ k c _ e. cc e;
  numbered = λ k c e. cc e;
}

run-Inv :
    (digits : ℕ → List ℕ) (h : Bool) (ops : List Op) (s s' : TcpServer) (m : Turns)
    → ((i j : ℕ) → digits i ≡ digits j → i ≡ j)
    → run digits ops s ≡ ok s'
    → Inv digits h s m
    → (m' : Turns) × Inv digits h s' m'
unfolding run
run-Inv digits h [] s s' m inj e v = (m, subst (λ (q : TcpServer). Inv digits h q m) (cc e) v)
run-Inv digits h (op ∷ ops) s s' m inj e v =
    let (s₁, first, rest) = bind-ok (step digits op s) (run digits ops) s' e in
    let (m₁, v₁) = step-Inv digits h op s s₁ m inj first v in
    run-Inv digits h ops s₁ s' m₁ inj rest v₁

-- From a server without connections, with nothing left to its loops, after any sequence of accepted
-- descriptors and removals that goes through: the calls left to the loops, carried out in their order on
-- the connections, pass all assertions of `connectEstablished` and `connectDestroyed`; after them every
-- connection that the server has is connected, and every other that has been established is
-- disconnected. The digits must tell the numbers apart.
pub run-turns :
    (digits : ℕ → List ℕ) (has_write_complete : Bool) (ops : List Op) (s s' : TcpServer)
    → ((i j : ℕ) → digits i ≡ digits j → i ≡ j)
    → s.connections ≡ []
    → s.left ≡ []
    → run digits ops s ≡ ok s'
    → (m : Turns) × (turns has_write_complete s'.left [] ≡ ok m)
      × ((k : List ℕ) (conn : Conn)
          → find k s'.connections ≡ some conn
          → (c : TcpConnection) × (find k m ≡ some c) × (c.state ≡ connected))
      × ((k : List ℕ) (c : TcpConnection)
          → find k s'.connections ≡ none
          → find k m ≡ some c
          → c.state ≡ disconnected)
run-turns digits h ops s s' inj empty idle e =
    let (m, v) = run-Inv digits h ops s s' [] inj e (start-Inv digits h s empty idle) in
    (m, v.passed, v.up, v.down)
