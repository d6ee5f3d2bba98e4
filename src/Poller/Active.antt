-- ===== src/Poller/Active.antt =====
-- `fillActiveChannels`.
use transfer_server.Prelude.{
  ℕ, zero, suc, ◌≡◌, ◌⊎◌, inl, inr, refl, false, List, [], ◌∷◌, none, some, arith, find, assign,
  nat_eq, All, All-imp, Bool-cases, ok, if◌then◌else◌, take,
}
use transfer_server.Prelude.Int.{pos}
use transfer_server.Channel.{Channel, any}
use transfer_server.Poller.{PollFd, Poller, fd_of, fill_active}
use transfer_server.Poller.Inv.{Known, Inv, Known-store, store-Inv}

-- An entry that poll(2) reports is not skipped and is that of a known channel.
abbrev pub Reported : Poller → PollFd → Type 0
Reported p pfd =
    (any pfd.revents ≡ false)
    ⊎ ((pfd.fd ≡ pos (fd_of pfd.fd))
        × ((addr : ℕ) × (c : Channel) × (i : ℕ) × (x : PollFd) × Known p (fd_of pfd.fd) addr i c x))

-- The channels of the entries with events, in their order.
abbrev pub active : List (ℕ × ℕ) → List PollFd → List ℕ
active m [] = []
active m (pfd ∷ rest) =
    let others = active m rest in
    if any pfd.revents
    then (elim (find (fd_of pfd.fd) m) [ none ↦ others | some addr ↦ addr ∷ others ])
    else others

pub Reported-store :
    (p : Poller) (a : ℕ) (d d' : Channel) (rest : List PollFd)
    → find a p.store ≡ some d
    → d'.fd ≡ d.fd
    → d'.index ≡ d.index
    → All (Reported p) rest
    → All (Reported (record p { store = assign a d' p.store })) rest
Reported-store p a d d' rest e q r h =
    All-imp (Reported p) (Reported (record p { store = assign a d' p.store })) rest keep h
  where
    keep : (pfd : PollFd) → Reported p pfd → Reported (record p { store = assign a d' p.store }) pfd
    keep pfd (inl quiet) = inl quiet
    keep pfd (inr (s, (addr, c, i, x, k))) =
        let (c', k') = Known-store p (fd_of pfd.fd) addr i a c d d' x k e q r in
        inr (s, (addr, c', i, x, k'))

-- Where the invariant holds, and every entry with events is one of a known channel that is not
-- skipped: `fillActiveChannels` passes its assertions and lists the channels of the first
-- `numEvents` entries with events, in the order of the array; array and map stay as they are, and the
-- invariant holds again.
pub fill_active-Inv :
    (rest : List PollFd) (p : Poller) (n : ℕ)
    → Inv p
    → All (Reported p) rest
    → (p' : Poller) × (fill_active p rest n ≡ ok (take n (active p.channels rest), p'))
      × Inv p'
      × (p'.pollfds ≡ p.pollfds)
      × (p'.channels ≡ p.channels)
unfolding fill_active
fill_active-Inv [] p zero v h = (p, refl, v, refl, refl)
fill_active-Inv [] p (suc n) v h = (p, refl, v, refl, refl)
fill_active-Inv (pfd ∷ rest) p zero v h = (p, refl, v, refl, refl)
fill_active-Inv (pfd ∷ rest) p (suc n) v (inl quiet, hs) =
    let (p', e, v', q, r) = fill_active-Inv rest p (suc n) v hs in
    (p', ground (arith, quiet, e), v', q, r)
fill_active-Inv (pfd ∷ rest) p (suc n) v (inr (s, (addr, c, i, x, k)), hs) =
    elim (Bool-cases (any pfd.revents)) [
      | inl some_event ↦
          let c' = record c { revents = pfd.revents } in
          let p₁ = record p { store = assign addr c' p.store } in
          let v₁ = store-Inv p addr c c' v k.stored refl refl in
          let hs₁ = Reported-store p addr c c' rest k.stored refl refl hs in
          let (p', e, v', q, r) = fill_active-Inv rest p₁ n v₁ hs₁ in
          (p', ground (arith, some_event, s, k.mapped, k.stored, k.named, e), v', q, r)
      | inr quiet ↦
          let (p', e, v', q, r) = fill_active-Inv rest p (suc n) v hs in
          (p', ground (arith, quiet, e), v', q, r)
    ]
