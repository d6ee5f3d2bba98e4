-- ===== src/Poller/Polled.antt =====
-- `poll`: the answer of poll(2) is written into the array, and the active channels are listed.
use transfer_server.Prelude.{
  ℕ, zero, suc, ◌≡◌, ◌⊎◌, inl, inr, refl, sym, ap, subst, ◌∙◌, false, List, [], ◌∷◌, some, arith,
  get_elem?, nat_eq, All, ok, take,
}
use transfer_server.Prelude.Int.{pos}
use transfer_server.Channel.{Events, Channel, any}
use transfer_server.Poller.{PollFd, Poller, polled, fd_of, fill_active, mark, poll}
use transfer_server.Poller.Inv.{Known, Inv}
use transfer_server.Poller.Active.{Reported, active, fill_active-Inv}

-- Marking an entry changes nothing but its `revents`.
mark-entry :
    (xs : List PollFd) (es : List Events) (i : ℕ) (x : PollFd)
    → get_elem? (mark xs es) i ≡ some x
    → (y : PollFd) × (get_elem? xs i ≡ some y) × (x.fd ≡ y.fd)
unfolding mark
mark-entry [] es i x h = (x, h, refl)
mark-entry (y ∷ ys) [] i x h = (x, h, refl)
mark-entry (y ∷ ys) (e ∷ es) zero x h = (y, refl, ground (arith, h))
mark-entry (y ∷ ys) (e ∷ es) (suc i) x h = mark-entry ys es i x h

entry-mark :
    (xs : List PollFd) (es : List Events) (i : ℕ) (y : PollFd)
    → get_elem? xs i ≡ some y
    → (x : PollFd) × (get_elem? (mark xs es) i ≡ some x) × (x.fd ≡ y.fd)
unfolding mark
entry-mark [] es i y h = (y, h, refl)
entry-mark (z ∷ ys) [] i y h = (y, h, refl)
entry-mark (z ∷ ys) (e ∷ es) zero y h = (record z { revents = e }, refl, ground (arith, h))
entry-mark (z ∷ ys) (e ∷ es) (suc i) y h = entry-mark ys es i y h

abbrev pub marked : Poller → List Events → Poller
marked p es = record p { pollfds = mark p.pollfds es }

Known-marked :
    (p : Poller) (es : List Events) (fd addr i : ℕ) (c : Channel) (y x : PollFd)
    → Known p fd addr i c y
    → get_elem? (mark p.pollfds es) i ≡ some x
    → x.fd ≡ y.fd
    → Known (marked p es) fd addr i c x
Known-marked p es fd addr i c y x k h q = record {
  mapped = k.mapped;
  stored = k.stored;
  named = k.named;
  placed = k.placed;
  entry = h;
  marked = ap fd_of q ∙ k.marked;
}

pub marked-Inv : (p : Poller) (es : List Events) → Inv p → Inv (marked p es)
marked-Inv p es v = record {
  slots = λ i x h.
      let (y, at, q) = mark-entry p.pollfds es i x h in
      let (addr, c, k) = v.slots i y at in
      (
        addr,
        c,
        subst (λ fd. Known (marked p es) fd addr i c x) (ap fd_of (sym q))
            (Known-marked p es (fd_of y.fd) addr i c y x k h q),
      );
  known = λ fd addr h.
      let (i, c, y, k) = v.known fd addr h in
      let (x, at, q) = entry-mark p.pollfds es i y k.entry in
      (i, c, x, Known-marked p es fd addr i c y x k at q);
}

-- poll(2) reports nothing for an entry that it skips.
abbrev pub Skips : PollFd → Type 0
Skips pfd = (any pfd.revents ≡ false) ⊎ (pfd.fd ≡ pos (fd_of pfd.fd))

pub reported :
    (p : Poller) (v : Inv p) (n : ℕ) (rest : List PollFd)
    → ((i : ℕ) (x : PollFd)
        → get_elem? rest i ≡ some x
        → (j : ℕ) × (get_elem? p.pollfds j ≡ some x))
    → All Skips rest
    → All (Reported p) rest
reported p v n [] inside h = tt
reported p v n (x ∷ rest) inside (s, hs) =
    (first s, reported p v n rest (λ i y e. inside (suc i) y e) hs)
  where
    first : Skips x → Reported p x
    first (inl quiet) = inl quiet
    first (inr sign) =
        let (j, at) = inside 0 x refl in
        let (addr, c, k) = v.slots j x at in inr (sign, (addr, c, j, x, k))

pub poll-fill_active :
    (p : Poller) (n : ℕ) (es : List Events)
    → poll p (polled n es) ≡ fill_active (marked p es) (mark p.pollfds es) n
unfolding poll
poll-fill_active p n es = refl

-- Where the invariant holds and poll(2) reports nothing for the entries that it skips: `poll` passes its
-- assertions, lists the channels of the first entries with events, as many as poll(2) counted, and the
-- invariant holds again.
pub poll-Inv :
    (p : Poller) (n : ℕ) (es : List Events)
    → Inv p
    → All Skips (mark p.pollfds es)
    → (p' : Poller) × (poll p (polled n es)
        ≡ ok (take n (active p.channels (mark p.pollfds es)), p'))
      × Inv p'
      × (p'.channels ≡ p.channels)
unfolding poll
poll-Inv p n es v h =
    let v' = marked-Inv p es v in
    let (p', e, w, q, r) =
      fill_active-Inv (mark p.pollfds es) (marked p es) n v'
        (reported (marked p es) v' n (mark p.pollfds es) (λ i x at. (i, at)) h) in
    (p', e, w, r)
