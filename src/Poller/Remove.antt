-- ===== src/Poller/Remove.antt =====
-- The array after `removeChannel`: the last entry takes the place of the one that goes.
use transfer_server.Prelude.{
  ℕ, ◌-◌, ◌<◌, ◌≡◌, ◌≢◌, refl, sym, subst, ◌∙◌, some, arith, length, length-take, take, get_elem?,
  set, find, assign, erase, nat_eq, find-assign, find-erase, ℕ_discrete, get_elem?-set_self,
  get_elem?-set_ne, get_elem?-lt, get_elem?-take, List,
}
use transfer_server.Channel.{Channel}
use transfer_server.Poller.{PollFd, Poller, fd_of, swap_remove}
use transfer_server.Poller.Inv.{Known, Inv, Known-unique}

-- An entry of an array whose end was cut off.
take-entry :
    (n : ℕ) (xs : List PollFd) (i : ℕ) (x : PollFd)
    → get_elem? (take n xs) i ≡ some x
    → (i < n) × (get_elem? xs i ≡ some x)
take-entry n xs i x h =
    let lt = get_elem?-lt (take n xs) i h in
    let lt' : i < n = omega (arith, lt, length-take n xs) in
    (lt', sym (get_elem?-take n xs i lt') ∙ h)

module _ (p : Poller) (addr idx : ℕ) (c : Channel) (pfd : PollFd) (v : Inv p)
    (k : Known p c.fd addr idx c pfd) where
  abbrev pub size : ℕ
  size = length p.pollfds - 1

  idx-lt : idx < length p.pollfds
  idx-lt = get_elem?-lt p.pollfds idx k.entry

  -- Another descriptor stays in the map, has another entry and another channel.
  mapped-erase :
      (fd a : ℕ)
      → fd ≢ c.fd
      → find fd p.channels ≡ some a
      → find fd (erase c.fd p.channels) ≡ some a
  mapped-erase fd a ne h = ground (arith, find-erase c.fd fd p.channels, h, ne)

  erase-mapped :
      (fd a : ℕ)
      → find fd (erase c.fd p.channels) ≡ some a
      → (fd ≢ c.fd) × (find fd p.channels ≡ some a)
  erase-mapped fd a h = ground (arith, find-erase c.fd fd p.channels, h)

  apart :
      (fd a i : ℕ) (e : Channel) (x : PollFd)
      → Known p fd a i e x
      → (fd ≢ c.fd → i ≢ idx) × (i ≢ idx → fd ≢ c.fd)
  apart fd a i e x l =
      let u = Known-unique p fd c.fd a addr i idx e c x pfd l k in
      (λ ne q. ne (u.1 q), λ ne q. ne (u.0 q))

  -- The entry is the last one.
  abbrev pub cut : Poller
  cut = record p { channels = erase c.fd p.channels; pollfds = take size p.pollfds }

  pub Known-cut :
      (fd a i : ℕ) (e : Channel) (x : PollFd)
      → idx ≡ size
      → fd ≢ c.fd
      → Known p fd a i e x
      → Known cut fd a i e x
  Known-cut fd a i e x last ne l =
      let lt : i < size =
        omega (arith, last, get_elem?-lt p.pollfds i l.entry, (apart fd a i e x l).0 ne) in
      record {
        mapped = mapped-erase fd a ne l.mapped;
        stored = l.stored;
        named = l.named;
        placed = l.placed;
        entry = get_elem?-take size p.pollfds i lt ∙ l.entry;
        marked = l.marked;
      }

  pub cut-Inv : idx ≡ size → Inv cut
  cut-Inv last = record {
    slots = λ i x h.
        let (lt, at) = take-entry size p.pollfds i x h in
        let (a, e, l) = v.slots i x at in
        let other : i ≢ idx = omega (arith, last, lt) in
        (a, e, Known-cut (fd_of x.fd) a i e x last ((apart (fd_of x.fd) a i e x l).1 other) l);
    known = λ fd a h.
        let (ne, old) = erase-mapped fd a h in
        let (i, e, x, l) = v.known fd a old in (i, e, x, Known-cut fd a i e x last ne l);
  }

  -- The entry `last` of the channel at `m` takes its place.
  module _ (m : ℕ) (d : Channel) (last : PollFd) (l : Known p (fd_of last.fd) m size d last)
      (inner : idx ≢ size) where
    abbrev pub d' : Channel
    d' = record d { index = some idx }

    abbrev pub moved : Poller
    moved = record p {
      store = assign m d' p.store;
      channels = erase c.fd p.channels;
      pollfds = swap_remove p.pollfds idx last;
    }

    inner-lt : idx < size
    inner-lt = omega (arith, idx-lt, inner)

    last-other : fd_of last.fd ≢ c.fd
    last-other = (apart (fd_of last.fd) m size d last l).1 (λ q. inner (sym q))

    pub last-Known : Known moved (fd_of last.fd) m idx d' last
    last-Known = record {
      mapped = mapped-erase (fd_of last.fd) m last-other l.mapped;
      stored = ground (arith, find-assign m m d' p.store);
      named = l.named;
      placed = refl;
      entry =
          get_elem?-take size (set p.pollfds idx last) idx inner-lt
          ∙ get_elem?-set_self p.pollfds idx last idx-lt;
      marked = refl;
    }

    -- An entry that is neither the one that goes nor the last one.
    stays :
        (fd a i : ℕ) (e : Channel) (x : PollFd)
        → i ≢ size
        → fd ≢ c.fd
        → Known p fd a i e x
        → Known moved fd a i e x
    stays fd a i e x ni ne o =
        let lt : i < size = omega (arith, ni, get_elem?-lt p.pollfds i o.entry) in
        let gone : idx ≢ i = λ q. (apart fd a i e x o).0 ne (sym q) in
        let u = Known-unique p fd (fd_of last.fd) a m i size e d x last o l in
        let other : m ≢ a = λ q. ni (u.0 (u.2 (sym q))) in
        record {
          mapped = mapped-erase fd a ne o.mapped;
          stored = ground (arith, find-assign m a d' p.store, o.stored, other);
          named = o.named;
          placed = o.placed;
          entry =
              get_elem?-take size (set p.pollfds idx last) i lt
              ∙ get_elem?-set_ne p.pollfds last gone
              ∙ o.entry;
          marked = o.marked;
        }

    pub moved-Known :
        (fd a i : ℕ) (e : Channel) (x : PollFd)
        → fd ≢ c.fd
        → Known p fd a i e x
        → (i' : ℕ) × (e' : Channel) × Known moved fd a i' e' x
    moved-Known fd a i e x ne o = elim (ℕ_discrete i size) [
      | yes q ↦
          let u = Known-unique p fd (fd_of last.fd) a m i size e d x last o l in
          let same_fd : fd_of last.fd ≡ fd = sym (u.1 q) in
          let same_addr : m ≡ a = ground (arith, same_fd, o.mapped, l.mapped) in
          let same_entry : last ≡ x = ground (arith, q, o.entry, l.entry) in
          (
            idx,
            d',
            subst (λ y. Known moved fd a idx d' y) same_entry
                (subst (λ b. Known moved fd b idx d' last) same_addr
                  (subst (λ g. Known moved g m idx d' last) same_fd last-Known)),
          )
      | no ni ↦ (i, e, stays fd a i e x ni ne o)
    ]

    pub moved-Inv : Inv moved
    moved-Inv = record {
      slots = λ i x h.
          let (lt, at) = take-entry size (set p.pollfds idx last) i x h in
          elim (ℕ_discrete idx i) [
            | yes q ↦
                let same : last ≡ x =
                  ground (arith, q, at, get_elem?-set_self p.pollfds idx last idx-lt) in
                (
                  m,
                  d',
                  subst (λ j. Known moved (fd_of x.fd) m j d' x) q
                      (subst (λ y. Known moved (fd_of y.fd) m idx d' y) same last-Known),
                )
            | no q ↦
                let (a, e, o) = v.slots i x (sym (get_elem?-set_ne p.pollfds last q) ∙ at) in
                let ne = (apart (fd_of x.fd) a i e x o).1 (λ r. q (sym r)) in
                let ni : i ≢ size = omega (arith, lt) in (a, e, stays (fd_of x.fd) a i e x ni ne o)
          ];
      known = λ fd a h.
          let (ne, old) = erase-mapped fd a h in
          let (i, e, x, o) = v.known fd a old in
          let (i', e', o') = moved-Known fd a i e x ne o in (i', e', x, o');
    }
