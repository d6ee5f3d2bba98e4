-- ===== src/Timer/Inv.antt =====
-- The invariant of the timer queue, and what keeps it. `held` are the addresses of timers that
-- `handleRead` has taken out of the set and not given back yet.
use transfer_server.Prelude.{
  ℕ, ◌+◌, ◌≤◌, ◌<◌, ◌≡◌, refl, List, [], ◌∷◌, some, arith, All, Free, Distinct, find, assign, erase,
  find-assign, find-erase, nat_eq, ok, All-imp,
}
use transfer_server.Timestamp.{Timestamp}
use transfer_server.Timer.Set.{
  Sorted, addresses, All-set_insert, Sorted-set_insert, set_insert-fresh, Free-set_insert,
  Distinct-set_insert,
}
use transfer_server.Timer.{
  Entry, Timer, TimerQueue, uintptr_max, set_insert, insert, is_earliest, reset_timerfd,
}

-- The set's copy of an expiration is the timer's own.
abbrev pub Live : List (ℕ × Timer) → Entry → Type 0
Live heap x = (timer : Timer) × (find x.1 heap ≡ some timer) × (timer.expiration ≡ x.0)

abbrev pub Held : List (ℕ × Timer) → ℕ → Type 0
Held heap p = (timer : Timer) × (find p heap ≡ some timer)

pub record Inv (held : List ℕ) (q : TimerQueue) : Type 0 where
  pub sorted : Sorted q.timers
  pub live : All (Live q.heap) q.timers
  pub held_live : All (Held q.heap) held
  pub distinct : Distinct (addresses q.timers)
  pub held_distinct : Distinct held
  pub apart : All (λ p. Free p (addresses q.timers)) held
  pub below : All (λ p. p < q.next) (addresses q.timers)
  pub held_below : All (λ p. p < q.next) held
  pub room : q.next ≤ uintptr_max

Live-assign :
    (p : ℕ) (timer : Timer) (heap : List (ℕ × Timer)) (xs : List Entry)
    → Free p (addresses xs)
    → All (Live heap) xs
    → All (Live (assign p timer heap)) xs
Live-assign p timer heap [] f a = tt
Live-assign p timer heap ((t, c) ∷ xs) f ((u, e, r), a) =
    ((u, ground (arith, find-assign p c timer heap), r), Live-assign p timer heap xs f.1 a)

Live-erase :
    (p : ℕ) (heap : List (ℕ × Timer)) (xs : List Entry)
    → Free p (addresses xs)
    → All (Live heap) xs
    → All (Live (erase p heap)) xs
Live-erase p heap [] f a = tt
Live-erase p heap ((t, c) ∷ xs) f ((u, e, r), a) =
    ((u, ground (arith, find-erase p c heap), r), Live-erase p heap xs f.1 a)

Held-assign :
    (p : ℕ) (timer : Timer) (heap : List (ℕ × Timer)) (cs : List ℕ)
    → Free p cs
    → All (Held heap) cs
    → All (Held (assign p timer heap)) cs
Held-assign p timer heap [] f a = tt
Held-assign p timer heap (c ∷ cs) f ((u, e), a) =
    ((u, ground (arith, find-assign p c timer heap)), Held-assign p timer heap cs f.1 a)

Held-erase :
    (p : ℕ) (heap : List (ℕ × Timer)) (cs : List ℕ)
    → Free p cs
    → All (Held heap) cs
    → All (Held (erase p heap)) cs
Held-erase p heap [] f a = tt
Held-erase p heap (c ∷ cs) f ((u, e), a) =
    ((u, ground (arith, find-erase p c heap)), Held-erase p heap cs f.1 a)

Free-below : (n : ℕ) (cs : List ℕ) → All (λ c. c < n) cs → Free n cs
Free-below n [] a = tt
Free-below n (c ∷ cs) a = (omega arith, Free-below n cs a.1)

below_suc : (n : ℕ) (cs : List ℕ) → All (λ c. c < n) cs → All (λ c. c < n + 1) cs
below_suc n cs a = All-imp (λ c. c < n) (λ c. c < n + 1) cs (λ c h. omega arith) a

apart_insert :
    (p : ℕ) (t : Timestamp) (xs : List Entry) (cs : List ℕ)
    → Free p cs
    → All (λ c. Free c (addresses xs)) cs
    → All (λ c. Free c (addresses (set_insert (t, p) xs).0)) cs
apart_insert p t xs [] f a = tt
apart_insert p t xs (c ∷ cs) f a =
    (Free-set_insert c p t xs (λ e. f.0 e) a.0, apart_insert p t xs cs f.1 a.1)

addresses_below :
    (n p : ℕ) (t : Timestamp) (xs : List Entry)
    → p < n
    → All (λ c. c < n) (addresses xs)
    → All (λ c. c < n) (addresses (set_insert (t, p) xs).0)
addresses_below n p t xs h a =
    map_All (set_insert (t, p) xs).0 (All-set_insert (λ x. x.1 < n) (t, p) xs h (All_map xs a))
  where
    All_map : (xs : List Entry) → All (λ c. c < n) (addresses xs) → All (λ (x : Entry). x.1 < n) xs
    All_map [] a = tt
    All_map (x ∷ xs) a = (a.0, All_map xs a.1)

    map_All : (xs : List Entry) → All (λ (x : Entry). x.1 < n) xs → All (λ c. c < n) (addresses xs)
    map_All [] a = tt
    map_All (x ∷ xs) a = (a.0, map_All xs a.1)

abbrev pub inserted : TimerQueue → ℕ → Timestamp → TimerQueue
inserted q p when = record q { timers = (set_insert (when, p) q.timers).0 }

-- A held timer goes back into the set: the assertion of `insert` holds, and so does the invariant.
pub insert-Inv :
    (held : List ℕ) (q : TimerQueue) (p : ℕ) (timer : Timer)
    → Inv (p ∷ held) q
    → find p q.heap ≡ some timer
    → (insert q p timer.expiration
        ≡ ok (is_earliest timer.expiration q.timers, inserted q p timer.expiration))
      × Inv held (inserted q p timer.expiration)
unfolding insert
insert-Inv held q p timer i e = (
  ground (arith, set_insert-fresh timer.expiration p q.timers i.apart.0),
  record {
    sorted = Sorted-set_insert (timer.expiration, p) q.timers i.sorted;
    live = All-set_insert (Live q.heap) (timer.expiration, p) q.timers (timer, e, refl) i.live;
    held_live = i.held_live.1;
    distinct = Distinct-set_insert p timer.expiration q.timers i.apart.0 i.distinct;
    held_distinct = i.held_distinct.1;
    apart = apart_insert p timer.expiration q.timers held i.held_distinct.0 i.apart.1;
    below = addresses_below q.next p timer.expiration q.timers i.held_below.0 i.below;
    held_below = i.held_below.1;
    room = i.room;
  },
)

-- A held timer may change on the heap, or be deleted.
pub assign-Inv :
    (held : List ℕ) (q : TimerQueue) (p : ℕ) (timer : Timer)
    → Inv (p ∷ held) q
    → Inv (p ∷ held) (record q { heap = assign p timer q.heap })
assign-Inv held q p timer i = record {
  sorted = i.sorted;
  live = Live-assign p timer q.heap q.timers i.apart.0 i.live;
  held_live = (
    (timer, ground (arith, find-assign p p timer q.heap)),
    Held-assign p timer q.heap held i.held_distinct.0 i.held_live.1,
  );
  distinct = i.distinct;
  held_distinct = i.held_distinct;
  apart = i.apart;
  below = i.below;
  held_below = i.held_below;
  room = i.room;
}

pub erase-Inv :
    (held : List ℕ) (q : TimerQueue) (p : ℕ)
    → Inv (p ∷ held) q
    → Inv held (record q { heap = erase p q.heap })
erase-Inv held q p i = record {
  sorted = i.sorted;
  live = Live-erase p q.heap q.timers i.apart.0 i.live;
  held_live = Held-erase p q.heap held i.held_distinct.0 i.held_live.1;
  distinct = i.distinct;
  held_distinct = i.held_distinct.1;
  apart = i.apart.1;
  below = i.below;
  held_below = i.held_below.1;
  room = i.room;
}

-- `new Timer`: the timer is held until it is inserted.
abbrev pub allocated : TimerQueue → Timer → TimerQueue
allocated q timer = record q { heap = assign q.next timer q.heap; next = q.next + 1 }

pub allocated-Inv :
    (held : List ℕ) (q : TimerQueue) (timer : Timer)
    → Inv held q
    → q.next < uintptr_max
    → Inv (q.next ∷ held) (allocated q timer)
allocated-Inv held q timer i h = record {
  sorted = i.sorted;
  live = Live-assign q.next timer q.heap q.timers (Free-below q.next _ i.below) i.live;
  held_live = (
    (timer, ground (arith, find-assign q.next q.next timer q.heap)),
    Held-assign q.next timer q.heap held (Free-below q.next held i.held_below) i.held_live,
  );
  distinct = i.distinct;
  held_distinct = (Free-below q.next held i.held_below, i.held_distinct);
  apart = (Free-below q.next _ i.below, i.apart);
  below = below_suc q.next _ i.below;
  held_below = (omega arith, below_suc q.next held i.held_below);
  room = omega arith;
}

-- Arming the timerfd touches none of this.
pub armed-Inv :
    (held : List ℕ) (q : TimerQueue) (expiration clock : Timestamp)
    → Inv held q
    → Inv held (reset_timerfd q expiration clock)
unfolding reset_timerfd
armed-Inv held q expiration clock i = record {
  sorted = i.sorted;
  live = i.live;
  held_live = i.held_live;
  distinct = i.distinct;
  held_distinct = i.held_distinct;
  apart = i.apart;
  below = i.below;
  held_below = i.held_below;
  room = i.room;
}
