-- ===== src/EventLoop/Dispatch/Ready.antt =====
-- The entries that poll(2) reports, as the channels that `fillActiveChannels` lists.
use transfer_server.Prelude.{
  ℕ, zero, suc, ◌+◌, ◌<◌, ◌≡◌, ◌≢◌, inl, inr, refl, sym, subst, Bool, false, true, List, [], ◌∷◌,
  Option, none, some, ok, arith, get_elem?, find, assign, nat_eq, All, Free, Distinct, Bool-cases,
  take,
}
use transfer_server.Channel.{Events, Channel, any}
use transfer_server.Poller.{PollFd, Poller, fd_of, fill_active}
use transfer_server.Poller.Active.{Reported, Reported-store}
use transfer_server.Poller.Inv.{Inv, Known-unique}

-- The entry's channel and events, before those of the later entries.
abbrev with_first : Bool → Option ℕ → Events → List (ℕ × Events) → List (ℕ × Events)
with_first false o e others = others
with_first true none e others = others
with_first true (some addr) e others = (addr, e) ∷ others

-- The entries with events, each with the address of its channel.
abbrev pub ready : List (ℕ × ℕ) → List PollFd → List (ℕ × Events)
ready m [] = []
ready m (x ∷ rest) = with_first (any x.revents) (find (fd_of x.fd) m) x.revents (ready m rest)

abbrev pub addresses : List (ℕ × Events) → List ℕ
addresses [] = []
addresses (r ∷ rs) = r.0 ∷ addresses rs

-- The store after `fillActiveChannels`.
abbrev pub with_revents : List (ℕ × Channel) → List (ℕ × Events) → List (ℕ × Channel)
with_revents m [] = m
with_revents m ((a, e) ∷ rs) = elim (find a m) [
  | none ↦ with_revents m rs
  | some c ↦ with_revents (assign a (record c { revents = e }) m) rs
]

pub fill_active-ready :
    (rest : List PollFd) (p : Poller) (n : ℕ)
    → All (Reported p) rest
    → fill_active p rest n
      ≡ ok (
        addresses (take n (ready p.channels rest)),
        record p { store = with_revents p.store (take n (ready p.channels rest)) },
      )
unfolding fill_active
fill_active-ready [] p zero h = refl
fill_active-ready [] p (suc n) h = refl
fill_active-ready (pfd ∷ rest) p zero h = refl
fill_active-ready (pfd ∷ rest) p (suc n) (inl quiet, hs) =
    ground (arith, quiet, fill_active-ready rest p (suc n) hs)
fill_active-ready (pfd ∷ rest) p (suc n) (inr (s, (addr, c, i, x, k)), hs) =
    elim (Bool-cases (any pfd.revents)) [
      | inl some_event ↦
          let c' = record c { revents = pfd.revents } in
          let p₁ = record p { store = assign addr c' p.store } in
          let hs₁ = Reported-store p addr c c' rest k.stored refl refl hs in
          ground
            (arith, some_event, s, k.mapped, k.stored, k.named, fill_active-ready rest p₁ n hs₁)
      | inr quiet ↦ ground (arith, quiet, fill_active-ready rest p (suc n) hs)
    ]

Free-with_first :
    (a : ℕ) (b : Bool) (o : Option ℕ) (e : Events) (others : List (ℕ × Events))
    → ((a' : ℕ) → o ≡ some a' → a' ≢ a)
    → Free a (addresses others)
    → Free a (addresses (with_first b o e others))
Free-with_first a false o e others ne f = f
Free-with_first a true none e others ne f = f
Free-with_first a true (some a') e others ne f = (ne a' refl, f)

-- Entries at different places are of different channels.
apart :
    (p : Poller) (i j a b : ℕ) (x y : PollFd)
    → Inv p
    → get_elem? p.pollfds i ≡ some x
    → get_elem? p.pollfds j ≡ some y
    → find (fd_of x.fd) p.channels ≡ some a
    → find (fd_of y.fd) p.channels ≡ some b
    → a ≡ b
    → i ≡ j
apart p i j a b x y v at at' m m' e =
    let (addr, c, k) = v.slots i x at in
    let (addr', c', k') = v.slots j y at' in
    let u = Known-unique p (fd_of x.fd) (fd_of y.fd) addr addr' i j c c' x y k k' in
    u.0 (u.2 (ground (arith, k.mapped, k'.mapped, m, m', e)))

-- The list is the array from the place `k` on.
abbrev pub From : Poller → ℕ → List PollFd → Type 0
From p k rest =
    (j : ℕ) (y : PollFd) → get_elem? rest j ≡ some y → get_elem? p.pollfds (k + j) ≡ some y

pub From-all : (p : Poller) → From p 0 p.pollfds
From-all p j y e = subst (λ i. get_elem? p.pollfds i ≡ some y) from_zero e
  where
    from_zero : j ≡ 0 + j
    from_zero = omega arith

From-tail :
    (p : Poller) (k : ℕ) (x : PollFd) (rest : List PollFd)
    → From p k (x ∷ rest)
    → From p (suc k) rest
From-tail p k x rest h j y e = subst (λ i. get_elem? p.pollfds i ≡ some y) shift (h (suc j) y e)
  where
    shift : k + suc j ≡ suc k + j
    shift = omega arith

head_at :
    (p : Poller) (k : ℕ) (x : PollFd) (rest : List PollFd)
    → From p k (x ∷ rest)
    → get_elem? p.pollfds k ≡ some x
head_at p k x rest h = subst (λ i. get_elem? p.pollfds i ≡ some x) at_once (h 0 x refl)
  where
    at_once : k + 0 ≡ k
    at_once = omega arith

lt-ne : {i k : ℕ} → i < k → i ≢ k
lt-ne lt e = omega arith

ready-Free :
    (p : Poller) (i k a : ℕ) (x : PollFd) (rest : List PollFd)
    → Inv p
    → get_elem? p.pollfds i ≡ some x
    → find (fd_of x.fd) p.channels ≡ some a
    → i < k
    → From p k rest
    → Free a (addresses (ready p.channels rest))
ready-Free p i k a x [] v at m lt h = tt
ready-Free p i k a x (y ∷ rest) v at m lt h =
    Free-with_first a (any y.revents) (find (fd_of y.fd) p.channels) y.revents
      (ready p.channels rest)
      (λ b s e. lt-ne lt (apart p i k a b x y v at (head_at p k y rest h) m s (sym e)))
      (ready-Free p i (suc k) a x rest v at m (omega arith) (From-tail p k y rest h))

Distinct-with_first :
    (b : Bool) (o : Option ℕ) (e : Events) (others : List (ℕ × Events))
    → ((a : ℕ) → o ≡ some a → Free a (addresses others))
    → Distinct (addresses others)
    → Distinct (addresses (with_first b o e others))
Distinct-with_first false o e others f d = d
Distinct-with_first true none e others f d = d
Distinct-with_first true (some a) e others f d = (f a refl, d)

pub ready-Distinct :
    (p : Poller) (k : ℕ) (rest : List PollFd)
    → Inv p
    → From p k rest
    → Distinct (addresses (ready p.channels rest))
ready-Distinct p k [] v h = tt
ready-Distinct p k (x ∷ rest) v h =
    let h' = From-tail p k x rest h in
    Distinct-with_first (any x.revents) (find (fd_of x.fd) p.channels) x.revents
      (ready p.channels rest)
      (λ a m. ready-Free p k (suc k) a x rest v (head_at p k x rest h) m (omega arith) h')
      (ready-Distinct p (suc k) rest v h')

-- The store has a channel at the address.
abbrev pub Stored : List (ℕ × Channel) → ℕ × Events → Type 0
Stored m (a, e) = (c : Channel) × (find a m ≡ some c)

Stored-with_first :
    (m : List (ℕ × Channel)) (b : Bool) (o : Option ℕ) (e : Events) (others : List (ℕ × Events))
    → ((a : ℕ) → o ≡ some a → Stored m (a, e))
    → All (Stored m) others
    → All (Stored m) (with_first b o e others)
Stored-with_first m false o e others s h = h
Stored-with_first m true none e others s h = h
Stored-with_first m true (some a) e others s h = (s a refl, h)

pub ready-Stored :
    (p : Poller) (k : ℕ) (rest : List PollFd)
    → Inv p
    → From p k rest
    → All (Stored p.store) (ready p.channels rest)
ready-Stored p k [] v h = tt
ready-Stored p k (x ∷ rest) v h =
    Stored-with_first p.store (any x.revents) (find (fd_of x.fd) p.channels) x.revents
      (ready p.channels rest)
      (λ a m. let (i, c, y, kn) = v.known (fd_of x.fd) a m in (c, kn.stored))
      (ready-Stored p (suc k) rest v (From-tail p k x rest h))

Free-take :
    (a n : ℕ) (rs : List (ℕ × Events)) → Free a (addresses rs) → Free a (addresses (take n rs))
Free-take a zero rs f = tt
Free-take a (suc n) [] f = tt
Free-take a (suc n) (r ∷ rs) f = (f.0, Free-take a n rs f.1)

pub Distinct-take :
    (n : ℕ) (rs : List (ℕ × Events)) → Distinct (addresses rs) → Distinct (addresses (take n rs))
Distinct-take zero rs d = tt
Distinct-take (suc n) [] d = tt
Distinct-take (suc n) (r ∷ rs) d = (Free-take r.0 n rs d.0, Distinct-take n rs d.1)

pub Stored-take :
    (m : List (ℕ × Channel)) (n : ℕ) (rs : List (ℕ × Events))
    → All (Stored m) rs
    → All (Stored m) (take n rs)
Stored-take m zero rs h = tt
Stored-take m (suc n) [] h = tt
Stored-take m (suc n) (r ∷ rs) h = (h.0, Stored-take m n rs h.1)
