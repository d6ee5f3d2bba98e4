-- ===== src/Mutex/Holder.antt =====
-- What `holder_` tells.
use transfer_server.Prelude.{
  ℕ, ◌<◌, ◌≡◌, ◌≢◌, ◌⊎◌, inl, inr, ◌↔◌, refl, Bool, true, false, some, ok, arith,
}
use transfer_server.Mutex.{
  Place, outside, locking, holding, unlocking, waiting, MutexLock, create, destroy,
  is_locked_by_this_thread, assert_locked, Step, acquires, assigns, clears, releases, sleeps, wakes,
  Steps, stop, next,
}

-- The places at which a thread has the mutex.
abbrev pub has : Place → Bool
has outside = false
has locking = true
has holding = true
has unlocking = true
has waiting = false

abbrev pub marked : Place → Bool
marked holding = true
marked waiting = true
marked _ = false

-- pthread's owner is the thread that has the mutex; `holder_` is 0, or a thread that holds or waits.
pub record Inv (m : MutexLock) : Type 0 where
  pub owner_has : (t : ℕ) → m.owner ≡ some t → has (m.at t) ≡ true
  pub has_owner : (t : ℕ) → has (m.at t) ≡ true → m.owner ≡ some t
  pub held : m.holder ≢ 0 → marked (m.at m.holder) ≡ true
  pub no_zero : m.at 0 ≡ outside

Inv-Step : {waits : Bool} {m n : MutexLock} → Step waits m n → Inv m → Inv n
Inv-Step (acquires m t lt p free) v = record {
  owner_has = λ u e. ground (arith, p, free);
  has_owner = λ u e. ground (arith, p, free, v.has_owner u);
  held = λ e. ground (arith, p, free, v.held);
  no_zero = ground (arith, v.no_zero);
}
Inv-Step (assigns m t p) v = record {
  owner_has = λ u e. ground (arith, p, v.owner_has u);
  has_owner = λ u e. ground (arith, p, v.has_owner u, v.has_owner t);
  held = λ e. ground (arith, p);
  no_zero = ground (arith, v.no_zero);
}
Inv-Step (clears m t p) v = record {
  owner_has = λ u e. ground (arith, p, v.owner_has u);
  has_owner = λ u e. ground (arith, p, v.has_owner u, v.has_owner t);
  held = λ e. absurd (e refl);
  no_zero = ground (arith, v.no_zero);
}
Inv-Step (releases m t p) v = record {
  owner_has = λ u e. ground (arith);
  has_owner = λ u e. ground (arith, p, v.has_owner u, v.has_owner t);
  held = λ e. ground (arith, p, v.held e);
  no_zero = ground (arith, v.no_zero);
}
Inv-Step (sleeps m t _ p) v = record {
  owner_has = λ u e. ground (arith);
  has_owner = λ u e. ground (arith, p, v.has_owner u, v.has_owner t);
  held = λ e. ground (arith, p, v.held e);
  no_zero = ground (arith, v.no_zero);
}
Inv-Step (wakes m t p free) v = record {
  owner_has = λ u e. ground (arith, p);
  has_owner = λ u e. ground (arith, p, v.has_owner u);
  held = λ e. ground (arith, p, v.held e);
  no_zero = ground (arith, v.no_zero);
}

pub Inv-Steps : {waits : Bool} {m n : MutexLock} → Steps waits m n → Inv m → Inv n
Inv-Steps (stop _) v = v
Inv-Steps (next _ _ _ before st) v = Inv-Step st (Inv-Steps before v)

create-Inv : Inv create
create-Inv = record {
  owner_has = λ t e. cc e;
  has_owner = λ t e. cc e;
  held = λ e. absurd (e refl);
  no_zero = refl;
}

-- However the threads are interleaved, with waits on a condition or without: two threads that have the
-- mutex are one; where `isLockedByThisThread` says yes to a thread, that thread holds the mutex or waits
-- on a condition of it; and where no thread is between `lock()` and `unlock()` or waits, the
-- destructor passes its assertion.
pub holder-Sound :
    {waits : Bool} (m : MutexLock)
    → Steps waits create m
    → ((t u : ℕ) → has (m.at t) ≡ true → has (m.at u) ≡ true → t ≡ u)
      × ((t : ℕ)
          → 0 < t
          → is_locked_by_this_thread t m ≡ true
          → (m.at t ≡ holding) ⊎ (m.at t ≡ waiting))
      × (((t : ℕ) → marked (m.at t) ≡ false) → destroy m ≡ ok tt)
unfolding is_locked_by_this_thread destroy
holder-Sound m path =
    let v = Inv-Steps path create-Inv in
    (
      λ t u p q. cc (v.has_owner t p, v.has_owner u q),
      λ t pos e. marked_place (m.at t) (ground (arith, e, v.held)),
      λ none. ground (arith, v.held, none m.holder),
    )
  where
    marked_place : (p : Place) → marked p ≡ true → (p ≡ holding) ⊎ (p ≡ waiting)
    marked_place outside e = cc e
    marked_place locking e = cc e
    marked_place holding e = inl refl
    marked_place unlocking e = cc e
    marked_place waiting e = inr refl

-- A thread that holds the mutex is its holder, while no thread has waited.
Exact : MutexLock → Type 0
Exact m = (t : ℕ) → (m.at t ≡ waiting → ⊥) × (m.at t ≡ holding → m.holder ≡ t)

Exact-Step : {m n : MutexLock} → Step false m n → Inv m → Exact m → Exact n
unfolding Exact
Exact-Step (acquires m t lt p free) v x u =
    (λ e. ground (arith, (x u).0), λ e. ground (arith, (x u).1))
Exact-Step (assigns m t p) v x u =
    (λ e. ground (arith, (x u).0), λ e. ground (arith, p, v.has_owner u, v.has_owner t))
Exact-Step (clears m t p) v x u =
    (λ e. ground (arith, (x u).0), λ e. ground (arith, p, v.has_owner u, v.has_owner t))
Exact-Step (releases m t p) v x u = (λ e. ground (arith, (x u).0), λ e. ground (arith, (x u).1))
Exact-Step (sleeps m t w p) v x u = cc w
Exact-Step (wakes m t p free) v x u = absurd ((x t).0 p)

Exact-Steps : {m n : MutexLock} → Steps false m n → Inv m → Exact m → Exact n
Exact-Steps (stop _) v x = x
Exact-Steps (next _ _ _ before st) v x = Exact-Step st (Inv-Steps before v) (Exact-Steps before v x)

-- However the threads are interleaved, as long as none waits on a condition: `isLockedByThisThread` says
-- yes to a thread exactly while it is between the end of `lock()` and the start of `unlock()`, and
-- `assertLocked` passes exactly then.
pub locked_iff-holding :
    (m : MutexLock) (t : ℕ)
    → Steps false create m
    → 0 < t
    → ((is_locked_by_this_thread t m ≡ true) ↔ (m.at t ≡ holding))
      × ((assert_locked t m ≡ ok tt) ↔ (m.at t ≡ holding))
unfolding is_locked_by_this_thread assert_locked Exact
locked_iff-holding m t path pos =
    let x = Exact-Steps path create-Inv (λ u. (λ e. cc e, λ e. cc e)) t in
    let sound = (holder-Sound m path).1 t pos in
    let back : m.holder ≡ t → m.at t ≡ holding =
      λ e. elim (sound (ground (arith, e))) [ inl h ↦ h | inr w ↦ absurd (x.0 w) ] in
    (
      (λ e. back (ground (arith, e)), λ p. ground (arith, x.1 p)),
      (λ e. back (ground (arith, e)), λ p. ground (arith, x.1 p)),
    )
