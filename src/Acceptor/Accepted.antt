-- ===== src/Acceptor/Accepted.antt =====
-- Every descriptor that the system gives ends up in the server's map, under a name of its own.
use transfer_server.Prelude.{
  ℕ, zero, suc, ◌+◌, ◌<◌, ◌≡◌, ◌⊎◌, inl, inr, refl, ap, ◌∙◌, true, List, [], ◌∷◌, some, ok, arith,
  length, get_elem?, get_elem?-some, leb, if◌then◌else◌, find, bytes_instance, bytes_eq_iff,
  bytes_eq_self,
}
use transfer_server.Register.{int_max}
use transfer_server.TcpServer.{
  ThreadPool, Conn, TcpServer, conn_name, established, get_next_loop, new_connection,
}
use transfer_server.TcpServer.Names.{Inv, new_conn, name_free, found, established-Inv}
use transfer_server.Acceptor.{
  AcceptOutcome, connected, refused, Acceptor, accept, handle_read, handle_reads,
}

-- The pool has no loops, or a next one.
abbrev pub Ready : ThreadPool → Type 0
Ready p = (p.loops ≡ []) ⊎ (p.next < length p.loops)

get_next_loop-Ready :
    (p : ThreadPool)
    → Ready p
    → (l : ℕ) × (p' : ThreadPool) × (get_next_loop p ≡ ok (l, p')) × Ready p'
unfolding get_next_loop
get_next_loop-Ready p r = go p.loops r
  where
    go :
        (ls : List ℕ)
        → (ls ≡ []) ⊎ (p.next < length ls)
        → (l : ℕ) × (p' : ThreadPool) × (get_next_loop (record p { loops = ls }) ≡ ok (l, p'))
          × Ready p'
    go [] r = (p.base_loop, record p { loops = [] }, refl, inl refl)
    go (x ∷ xs) (inl e) = absurd (ground (arith, e))
    go (x ∷ xs) (inr lt) =
        let (l, at) = get_elem?-some (x ∷ xs) p.next lt in
        (
          l,
          record p {
            loops = x ∷ xs;
            next = if leb (length (x ∷ xs)) (p.next + 1) then 0 else p.next + 1;
          },
          ground (arith, at),
          inr (ground (arith)),
        )

-- The descriptors among the answers.
abbrev pub accepted : List AcceptOutcome → List ℕ
accepted [] = []
accepted (connected fd ∷ os) = fd ∷ accepted os
accepted (refused e ∷ os) = accepted os

-- The descriptors are under consecutive numbers from `n` on.
abbrev pub Numbered : (ℕ → List ℕ) → List ℕ → ℕ → List ℕ → List (List ℕ × Conn) → Type 0
Numbered digits name n fds m =
    (i fd : ℕ)
    → get_elem? fds i ≡ some fd
    → (c : Conn) × (find (conn_name digits name (n + i)) m ≡ some c) × (c.fd ≡ fd)

Numbered-cons :
    (digits : ℕ → List ℕ) (name : List ℕ) (n : ℕ) (fds : List ℕ) (m : List (List ℕ × Conn))
    (c : Conn)
    → find (conn_name digits name n) m ≡ some c
    → Numbered digits name (n + 1) fds m
    → Numbered digits name n (c.fd ∷ fds) m
Numbered-cons digits name n fds m c e h zero fd q =
    let same : n + 0 ≡ n = omega arith in
    (c, ap (λ j. find (conn_name digits name j) m) same ∙ e, ground (arith, q))
Numbered-cons digits name n fds m c e h (suc i) fd q =
    let same : n + suc i ≡ n + 1 + i = omega arith in
    let (d, f, g) = h i fd q in (d, ap (λ j. find (conn_name digits name j) m) same ∙ f, g)

-- From a server with the invariant of the names, a pool that can give a loop, and numbers left for all: every
-- descriptor that accept4 gives in a sequence of rounds gets a connection of its own, the i-th under the
-- i-th number from the next one on; no connection of before is lost, and refused rounds change nothing.
pub handle_reads-found :
    (digits : ℕ → List ℕ) (a : Acceptor) (os : List AcceptOutcome) (s : TcpServer)
    → ((m n : ℕ) → digits m ≡ digits n → m ≡ n)
    → a.has_callback ≡ true
    → Inv digits s
    → Ready s.pool
    → s.next_conn_id + length os < int_max
    → (s' : TcpServer) × (handle_reads digits a os s ≡ ok s')
      × Inv digits s'
      × Numbered digits s.name s.next_conn_id (accepted os) s'.connections
      × ((k : List ℕ) (c : Conn) → find k s.connections ≡ some c → find k s'.connections ≡ some c)
unfolding handle_reads handle_read accept new_connection
handle_reads-found digits a [] s inj cb v r h =
    (s, refl, v, (λ i fd e. absurd (ground (arith, e))), λ k c e. e)
handle_reads-found digits a (refused e ∷ os) s inj cb v r h =
    handle_reads-found digits a os s inj cb v r (omega (arith, h))
handle_reads-found digits a (connected fd ∷ os) s inj cb v r h =
    let (l, pool, g, r') = get_next_loop-Ready s.pool r in
    let s₁ = established digits fd l pool (s.next_conn_id + 1) s in
    let v₁ = established-Inv digits inj s v fd l (s.next_conn_id + 1) pool (omega arith) in
    let at = found digits inj s v fd l (s.next_conn_id + 1) pool (omega arith) in
    let new = conn_name digits s.name s.next_conn_id in
    let free = name_free digits inj s v in
    let (s', e, v', inside, kept) =
      handle_reads-found digits a os s₁ inj cb v₁ r' (omega (arith, h)) in
    (
      s',
      ground (arith, cb, g, h, e),
      v',
      Numbered-cons digits s.name s.next_conn_id (accepted os) s'.connections
          (new_conn digits inj s v fd l (s.next_conn_id + 1) pool (omega arith))
          (kept new (new_conn digits inj s v fd l (s.next_conn_id + 1) pool (omega arith))
            (ground (arith, at new, bytes_eq_self new)))
          inside,
      λ k c q. kept k c (ground (arith, at k, q, free, bytes_eq_iff new k)),
    )
