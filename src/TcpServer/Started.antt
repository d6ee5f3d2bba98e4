-- ===== src/TcpServer/Started.antt =====
-- A server from its constructor through `setThreadNum` and `start`.
use transfer_server.Prelude.{
  ℕ, zero, suc, ◌+◌, ◌<◌, ◌≡◌, refl, ap, sym, subst, ◌∙◌, Bool, true, false, if◌then◌else◌, List,
  [], ◌∷◌, ok, abort, ◌>>=◌, arith, length, append-nil,
}
use transfer_server.Prelude.Int.{pos, negsuc}
use transfer_server.TcpServer.{
  TcpServer, listens, leave, start_loops, start_pool, get_next_loop, create, set_thread_num, start,
}
use transfer_server.TcpServer.Pool.{next_loops, next_loops-cycle}

-- The server after `setThreadNum(n)` and the first `start()`.
abbrev pub started_server : Bool → (ℕ → ℕ) → ℕ → ℕ → List ℕ → TcpServer
started_server in_loop start_loop n base_loop name = record {
  name = name;
  pool = record {
    base_loop = base_loop;
    started = true;
    num_threads = n;
    next = 0;
    loops = start_loops start_loop 0 n;
  };
  started = true;
  listening = in_loop;
  next_conn_id = 1;
  connections = [];
  left = if in_loop then [] else listens ∷ [];
}

length-start_loops : (start_loop : ℕ → ℕ) (i n : ℕ) → length (start_loops start_loop i n) ≡ n
unfolding start_loops
length-start_loops start_loop i zero = refl
length-start_loops start_loop i (suc n) = omega (arith, length-start_loops start_loop (i + 1) n)

cycle_from_first :
    (in_loop : Bool) (start_loop : ℕ → ℕ) (n base_loop : ℕ) (name : List ℕ)
    → let pool = (started_server in_loop start_loop n base_loop name).pool in
      next_loops n pool ≡ ok (pool.loops, pool)
unfolding next_loops start_loops
cycle_from_first in_loop start_loop zero base_loop name = refl
cycle_from_first in_loop start_loop (suc n) base_loop name =
    let p = (started_server in_loop start_loop (suc n) base_loop name).pool in
    ap (λ k. next_loops k p) (sym (length-start_loops start_loop 0 (suc n)))
    ∙ next_loops-cycle p
        (subst (λ k. 0 < k) (sym (length-start_loops start_loop 0 (suc n))) (omega arith))
    ∙ ap (λ ls. ok (ls, p)) (append-nil p.loops)

-- A server is made, `setThreadNum(numThreads)` and `start()` are called, in the loop's thread or in another.
-- A number below 0 aborts. Otherwise `start()` goes through: that many calls of `getNextLoop` give the
-- loops of that many new threads, in the order in which they were started, and leave the pool as it was; with
-- 0 threads a call gives the server's own loop. Another `start()` starts no thread. Where the first was called in
-- the loop's thread, it listens already, and another one from anywhere changes nothing; where it was called in
-- another thread, another one from another thread asks once more to listen, and one in the loop's thread
-- listens at once.
pub start-cycle :
    (in_loop : Bool) (start_loop : ℕ → ℕ) (n base_loop : ℕ) (name : List ℕ)
    → let s = started_server in_loop start_loop n base_loop name in
      let here = started_server true start_loop n base_loop name in
      let there = started_server false start_loop n base_loop name in
      let alone = (started_server in_loop start_loop 0 base_loop name).pool in
      (set_thread_num (negsuc n) (create base_loop name) ≡ abort)
      × ((set_thread_num (pos n) (create base_loop name) >>= start in_loop start_loop) ≡ ok s)
      × (next_loops n s.pool ≡ ok (start_loops start_loop 0 n, s.pool))
      × (get_next_loop alone ≡ ok (base_loop, alone))
      × (start in_loop start_loop here ≡ ok here)
      × (start false start_loop there ≡ ok (leave listens there))
      × (start true start_loop there ≡ ok (record there { listening = true }))
unfolding create set_thread_num start start_pool start_loops get_next_loop
start-cycle true start_loop n base_loop name =
    (refl, refl, cycle_from_first true start_loop n base_loop name, refl, refl, refl, refl)
start-cycle false start_loop n base_loop name =
    (refl, refl, cycle_from_first false start_loop n base_loop name, refl, refl, refl, refl)
