-- ===== src/Poller/Join.antt =====
-- `updateChannel` on a channel that the poller does not know yet.
use transfer_server.Prelude.{
  ℕ, ◌≡◌, refl, sym, ap, subst, ◌∙◌, [], ◌∷◌, ◌++◌, none, some, arith, length, get_elem?, find,
  assign, nat_eq, find-assign, dec_lt, ℕ_discrete, length-append, get_elem?-lt, get_elem?-append_lt,
  get_elem?-append_last, ok,
}
use transfer_server.Prelude.Int.{pos}
use transfer_server.Channel.{Channel, none_event}
use transfer_server.Poller.{PollFd, Poller, fd_of, add_channel, update_channel, change_interest}
use transfer_server.Poller.Inv.{Known, Inv}

abbrev pub joined : Poller → ℕ → Channel → Poller
joined p addr c = record {
  store = assign addr (record c { index = some (length p.pollfds) }) (assign addr c p.store);
  pollfds = p.pollfds ++ (record { fd = pos c.fd; events = c.events; revents = none_event } ∷ []);
  channels = assign c.fd addr p.channels;
}

module _ (p : Poller) (addr : ℕ) (c c' : Channel) (stored : find addr p.store ≡ some c)
    (new : c.index ≡ none) (unused : find c'.fd p.channels ≡ none) where
  pub Known-joined :
      (fd a i : ℕ) (d : Channel) (x : PollFd)
      → Known p fd a i d x
      → Known (joined p addr c') fd a i d x
  Known-joined fd a i d x l = record {
    mapped = ground (arith, find-assign c'.fd fd addr p.channels, l.mapped);
    stored = ground (
      arith,
      find-assign addr a (record c' { index = some (length p.pollfds) }) (assign addr c' p.store),
      find-assign addr a c' p.store,
      l.stored,
      l.placed,
    );
    named = l.named;
    placed = l.placed;
    entry = get_elem?-append_lt p.pollfds _ i (get_elem?-lt p.pollfds i l.entry) ∙ l.entry;
    marked = l.marked;
  }

  abbrev new_entry : PollFd
  new_entry = record { fd = pos c'.fd; events = c'.events; revents = none_event }

  joined-Known :
      Known
        (joined p addr c')
        c'.fd
        addr
        (length p.pollfds)
        (record c' { index = some (length p.pollfds) })
        new_entry
  joined-Known = record {
    mapped = ground (arith, find-assign c'.fd c'.fd addr p.channels);
    stored = ground (
      arith,
      find-assign addr addr (record c' { index = some (length p.pollfds) })
          (assign addr c' p.store),
    );
    named = refl;
    placed = refl;
    entry = get_elem?-append_last p.pollfds new_entry;
    marked = refl;
  }

  joined-Inv : Inv p → Inv (joined p addr c')
  joined-Inv v = record {
    slots = λ i x h. elim (dec_lt i (length p.pollfds)) [
      | yes lt ↦
          let (a, d, l) = v.slots i x (sym (get_elem?-append_lt p.pollfds _ i lt) ∙ h) in
          (a, d, Known-joined (fd_of x.fd) a i d x l)
      | no ge ↦
          let e : length p.pollfds ≡ i = omega (
            arith,
            get_elem?-lt (p.pollfds ++ (new_entry ∷ [])) i h,
            length-append p.pollfds (new_entry ∷ []),
          ) in
          let same : new_entry ≡ x =
            cc (sym joined-Known.entry ∙ ap (get_elem? (joined p addr c').pollfds) e ∙ h) in
          (
            addr,
            record c' { index = some (length p.pollfds) },
            subst
                (λ y.
                  Known (joined p addr c') (fd_of y.fd) addr i
                    (record c' { index = some (length p.pollfds) }) y)
                same
                (subst
                  (λ j.
                    Known (joined p addr c') c'.fd addr j
                      (record c' { index = some (length p.pollfds) }) new_entry)
                  e joined-Known),
          )
    ];
    known = λ fd a h. elim (ℕ_discrete c'.fd fd) [
      | yes e ↦
          let q : addr ≡ a = ground (arith, find-assign c'.fd fd addr p.channels, h) in
          (
            length p.pollfds,
            record c' { index = some (length p.pollfds) },
            new_entry,
            subst
                (λ n.
                  Known (joined p addr c') n a (length p.pollfds)
                    (record c' { index = some (length p.pollfds) }) new_entry)
                e
                (subst
                  (λ b.
                    Known (joined p addr c') c'.fd b (length p.pollfds)
                      (record c' { index = some (length p.pollfds) }) new_entry)
                  q joined-Known),
          )
      | no e ↦
          let (i, d, x, l) = v.known fd a (ground (arith, find-assign c'.fd fd addr p.channels)) in
          (i, d, x, Known-joined fd a i d x l)
    ];
  }

-- Where the invariant holds, the first change of the mask of a channel that has no index yet and
-- whose descriptor no other channel has gives it an entry at the end of the array, with the new
-- mask, and the invariant holds again.
pub change_interest-new :
    (p : Poller) (addr : ℕ) (c c' : Channel) (f : Channel → Channel)
    → Inv p
    → find addr p.store ≡ some c
    → c.index ≡ none
    → find c'.fd p.channels ≡ none
    → f c ≡ c'
    → c'.index ≡ none
    → (change_interest p addr f ≡ ok (joined p addr c'))
      × Inv (joined p addr c')
      × Known
          (joined p addr c')
          c'.fd
          addr
          (length p.pollfds)
          (record c' { index = some (length p.pollfds) })
          (record { fd = pos c'.fd; events = c'.events; revents = none_event })
unfolding change_interest update_channel add_channel
change_interest-new p addr c c' f v stored new unused fc new' = (
  ground (arith, stored, fc, new', unused, find-assign addr addr c' p.store),
  joined-Inv p addr c c' stored new unused v,
  joined-Known p addr c c' stored new unused,
)
