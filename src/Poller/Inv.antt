-- ===== src/Poller/Inv.antt =====
-- The invariant that ties the three parts together: the array, the map and each channel's index.
use transfer_server.Prelude.{
  ℕ, ◌≡◌, some, arith, get_elem?, find, assign, nat_eq, find-assign, ℕ_discrete,
}
use transfer_server.Channel.{Channel}
use transfer_server.Poller.{PollFd, Poller, fd_of}

-- The channel at `addr` is known under its descriptor and owns the entry `i`.
pub record Known (p : Poller) (fd addr i : ℕ) (c : Channel) (pfd : PollFd) : Type 0 where
  pub mapped : find fd p.channels ≡ some addr
  pub stored : find addr p.store ≡ some c
  pub named : c.fd ≡ fd
  pub placed : c.index ≡ some i
  pub entry : get_elem? p.pollfds i ≡ some pfd
  pub marked : fd_of pfd.fd ≡ fd

-- Each entry of the array has its channel, and each channel of the map has its entry.
pub record Inv (p : Poller) : Type 0 where
  pub slots :
      (i : ℕ) (pfd : PollFd)
      → get_elem? p.pollfds i ≡ some pfd
      → (addr : ℕ) × (c : Channel) × Known p (fd_of pfd.fd) addr i c pfd
  pub known :
      (fd addr : ℕ)
      → find fd p.channels ≡ some addr
      → (i : ℕ) × (c : Channel) × (pfd : PollFd) × Known p fd addr i c pfd

-- A write to the store that keeps descriptor and index keeps what is known.
pub Known-store :
    (p : Poller) (fd addr i a : ℕ) (c d d' : Channel) (pfd : PollFd)
    → Known p fd addr i c pfd
    → find a p.store ≡ some d
    → d'.fd ≡ d.fd
    → d'.index ≡ d.index
    → (c' : Channel) × Known (record p { store = assign a d' p.store }) fd addr i c' pfd
Known-store p fd addr i a c d d' pfd k e q r = elim (ℕ_discrete a addr) [
  | yes s ↦ (
    d',
    record {
      mapped = k.mapped;
      stored = ground (arith, find-assign a addr d' p.store, k.stored);
      named = ground (arith, k.stored, k.named);
      placed = ground (arith, k.stored, k.placed);
      entry = k.entry;
      marked = k.marked;
    },
  )
  | no s ↦ (
    c,
    record {
      mapped = k.mapped;
      stored = ground (arith, find-assign a addr d' p.store, k.stored);
      named = k.named;
      placed = k.placed;
      entry = k.entry;
      marked = k.marked;
    },
  )
]

pub store-Inv :
    (p : Poller) (a : ℕ) (d d' : Channel)
    → Inv p
    → find a p.store ≡ some d
    → d'.fd ≡ d.fd
    → d'.index ≡ d.index
    → Inv (record p { store = assign a d' p.store })
store-Inv p a d d' v e q r = record {
  slots = λ i pfd h.
      let (addr, c, k) = v.slots i pfd h in
      let (c', k') = Known-store p (fd_of pfd.fd) addr i a c d d' pfd k e q r in (addr, c', k');
  known = λ fd addr h.
      let (i, c, pfd, k) = v.known fd addr h in
      let (c', k') = Known-store p fd addr i a c d d' pfd k e q r in (i, c', pfd, k');
}

-- Two entries are not of one descriptor, nor do two descriptors share a channel.
pub Known-unique :
    (p : Poller) (fd fd' addr addr' i i' : ℕ) (c c' : Channel) (pfd pfd' : PollFd)
    → Known p fd addr i c pfd
    → Known p fd' addr' i' c' pfd'
    → (fd ≡ fd' → i ≡ i') × (i ≡ i' → fd ≡ fd') × (addr ≡ addr' → fd ≡ fd')
Known-unique p fd fd' addr addr' i i' c c' pfd pfd' k l = (
  λ e. same_index e,
  λ e. ground (arith, k.entry, l.entry, k.marked, l.marked),
  λ e. ground (arith, k.stored, l.stored, k.named, l.named),
)
  where
    same_index : fd ≡ fd' → i ≡ i'
    same_index e = ground (arith, k.mapped, l.mapped, k.stored, l.stored, k.placed, l.placed)
