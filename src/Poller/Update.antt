-- ===== src/Poller/Update.antt =====
-- `updateChannel` on a channel that the poller knows.
use transfer_server.Prelude.{
  ℕ, ◌≡◌, refl, sym, ap, subst, ◌∙◌, some, arith, get_elem?, set, find, assign, nat_eq, find-assign,
  ℕ_discrete, get_elem?-set_self, get_elem?-set_ne, get_elem?-lt, ok,
}
use transfer_server.Prelude.Int.{negsuc}
use transfer_server.Channel.{Channel}
use transfer_server.Poller.{
  PollFd, Poller, fd_of, updated_pollfd, change_channel, update_channel, change_interest,
}
use transfer_server.Poller.Inv.{Known, Inv, store-Inv, Known-unique}

abbrev pub changed : Poller → Channel → ℕ → PollFd → Poller
changed p c idx pfd = record p { pollfds = set p.pollfds idx (updated_pollfd pfd c) }

updated_fd :
    (c : Channel) (pfd : PollFd) → fd_of pfd.fd ≡ c.fd → fd_of (updated_pollfd pfd c).fd ≡ c.fd
updated_fd c pfd e = ground arith

module _ (p : Poller) (addr idx : ℕ) (c : Channel) (pfd : PollFd)
    (k : Known p c.fd addr idx c pfd) where
  Known-changed :
      (fd a i : ℕ) (d : Channel) (x : PollFd)
      → Known p fd a i d x
      → (x' : PollFd) × Known (changed p c idx pfd) fd a i d x'
  Known-changed fd a i d x l = elim (ℕ_discrete idx i) [
    | yes e ↦ (
      updated_pollfd pfd c,
      record {
        mapped = l.mapped;
        stored = l.stored;
        named = l.named;
        placed = l.placed;
        entry =
            subst
              (λ j.
                get_elem? (set p.pollfds idx (updated_pollfd pfd c)) j
                ≡ some (updated_pollfd pfd c))
              e
              (get_elem?-set_self p.pollfds idx (updated_pollfd pfd c)
                (get_elem?-lt p.pollfds idx k.entry));
        marked =
            updated_fd c pfd k.marked ∙ (Known-unique p c.fd fd addr a idx i c d pfd x k l).1 e;
      },
    )
    | no e ↦ (
      x,
      record {
        mapped = l.mapped;
        stored = l.stored;
        named = l.named;
        placed = l.placed;
        entry = get_elem?-set_ne p.pollfds (updated_pollfd pfd c) e ∙ l.entry;
        marked = l.marked;
      },
    )
  ]

  changed-Known : Known (changed p c idx pfd) c.fd addr idx c (updated_pollfd pfd c)
  changed-Known = record {
    mapped = k.mapped;
    stored = k.stored;
    named = k.named;
    placed = k.placed;
    entry =
        get_elem?-set_self p.pollfds idx (updated_pollfd pfd c)
          (get_elem?-lt p.pollfds idx k.entry);
    marked = updated_fd c pfd k.marked;
  }

  changed-Inv : Inv p → Inv (changed p c idx pfd)
  changed-Inv v = record {
    slots = λ i x h. elim (ℕ_discrete idx i) [
      | yes e ↦
          let same : updated_pollfd pfd c ≡ x =
            cc (sym changed-Known.entry ∙ ap (get_elem? (changed p c idx pfd).pollfds) e ∙ h) in
          let q : fd_of x.fd ≡ c.fd = ap (λ y. fd_of y.fd) (sym same) ∙ updated_fd c pfd k.marked in
          (
            addr,
            c,
            record {
              mapped = ap (λ f. find f p.channels) q ∙ k.mapped;
              stored = k.stored;
              named = sym q;
              placed = k.placed ∙ ap some e;
              entry = h;
              marked = refl;
            },
          )
      | no e ↦
          let (a, d, l) =
            v.slots i x (sym (get_elem?-set_ne p.pollfds (updated_pollfd pfd c) e) ∙ h) in
          (
            a,
            d,
            record {
              mapped = l.mapped;
              stored = l.stored;
              named = l.named;
              placed = l.placed;
              entry = h;
              marked = refl;
            },
          )
    ];
    known = λ fd a h.
        let (i, d, x, l) = v.known fd a h in
        let (x', l') = Known-changed fd a i d x l in (i, d, x', l');
  }

  change_channel-eq : change_channel p addr c idx ≡ ok (changed p c idx pfd)
  unfolding change_channel
  change_channel-eq = ground (arith, k.mapped, k.entry, k.marked)

-- The store after the channel at `addr` becomes `c`.
abbrev pub stored_as : Poller → ℕ → Channel → Poller
stored_as p addr c = record p { store = assign addr c p.store }

-- Where the invariant holds, a change that keeps descriptor and index of a known channel ends well:
-- its entry has the new mask, is skipped by poll(2) if the mask is empty, and keeps its mark
-- otherwise; the invariant holds again.
pub change_interest-Known :
    (p : Poller) (addr idx : ℕ) (c c' : Channel) (pfd : PollFd) (f : Channel → Channel)
    → Inv p
    → Known p c.fd addr idx c pfd
    → f c ≡ c'
    → c'.fd ≡ c.fd
    → c'.index ≡ c.index
    → let p' = changed (stored_as p addr c') c' idx pfd in
      (change_interest p addr f ≡ ok p')
      × Inv p'
      × Known p' c'.fd addr idx c' (updated_pollfd pfd c')
unfolding change_interest update_channel
change_interest-Known p addr idx c c' pfd f v k fc e q =
    let k' : Known (stored_as p addr c') c'.fd addr idx c' pfd = record {
      mapped = ap (λ n. find n p.channels) e ∙ k.mapped;
      stored = ground (arith, find-assign addr addr c' p.store);
      named = refl;
      placed = q ∙ k.placed;
      entry = k.entry;
      marked = k.marked ∙ sym e;
    } in
    let step = change_channel-eq (stored_as p addr c') addr idx c' pfd k' in
    (
      ground (arith, k.stored, k'.stored, k'.placed, fc, step),
      changed-Inv (stored_as p addr c') addr idx c' pfd k' (store-Inv p addr c c' v k.stored e q),
      changed-Known (stored_as p addr c') addr idx c' pfd k',
    )

-- Where the invariant holds, no change of the mask of a known channel brings back an entry that
-- poll(2) skips: `updateChannel` writes the new events into the entry, and leaves its descriptor
-- negative.
pub change_interest-skipped :
    (p : Poller) (addr idx : ℕ) (c c' : Channel) (pfd : PollFd) (f : Channel → Channel)
    → Inv p
    → Known p c.fd addr idx c pfd
    → f c ≡ c'
    → c'.fd ≡ c.fd
    → c'.index ≡ c.index
    → pfd.fd ≡ negsuc c.fd
    → (p' : Poller) × (x : PollFd) × (change_interest p addr f ≡ ok p')
      × (get_elem? p'.pollfds idx ≡ some x)
      × (x.events ≡ c'.events)
      × (x.fd ≡ negsuc c.fd)
change_interest-skipped p addr idx c c' pfd f v k fc e q s =
    let (eq, inv, known) = change_interest-Known p addr idx c c' pfd f v k fc e q in
    (
      changed (stored_as p addr c') c' idx pfd,
      updated_pollfd pfd c',
      eq,
      known.entry,
      refl,
      ground arith,
    )
