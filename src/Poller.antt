-- ===== src/Poller.antt =====
-- include/Poller.h and src/Poller.cpp: the channels of one loop, and the array given to poll(2). A
-- `Channel*` is an address in `store`. `fd` of a `pollfd` is signed: `negsuc n` is -n - 1, the mark by
-- which poll(2) skips an entry. What poll(2) answers is an argument. `assertInLoopThread`
-- only writes to the log (EventLoop).
pub mod Inv
pub mod Update
pub mod Join
pub mod Remove
pub mod Leave
pub mod Active
pub mod Polled
use transfer_server.Prelude.{
  ℕ, zero, suc, ◌+◌, ◌-◌, Bool, true, false, not, ◌&&◌, ◌||◌, List, [], ◌∷◌, ◌++◌, Option, none,
  some, Checked, ok, abort, assert, deref, ◌>>=◌, ◌>>◌, if◌then◌else◌, ltb, ◌==◌, length, get_elem?,
  set, take, find, assign, erase, nat_eq,
}
use transfer_server.Prelude.Int.{ℤ, pos, negsuc}
use transfer_server.Channel.{Events, none_event, Channel, any, is_none_event}

pub record PollFd : Type 0 where
  pub fd : ℤ
  pub events : Events
  pub revents : Events

pub record Poller : Type 0 where
  pub store : List (ℕ × Channel)
  pub pollfds : List PollFd
  pub channels : List (ℕ × ℕ)

abbrev pub eq_ℤ : ℤ → ℤ → Bool
eq_ℤ (pos a) (pos b) = a == b
eq_ℤ (pos a) (negsuc b) = false
eq_ℤ (negsuc a) (pos b) = false
eq_ℤ (negsuc a) (negsuc b) = a == b

-- The descriptor of an entry, skipped or not: `fd < 0 ? -fd - 1 : fd`.
abbrev pub fd_of : ℤ → ℕ
fd_of (pos n) = n
fd_of (negsuc n) = n

-- The two assertions that the map knows the channel.
abbrev pub assert_known : Poller → ℕ → ℕ → Checked (Unit {0})
assert_known p fd addr = deref (find fd p.channels) >>= λ a. assert (a == addr)

add_channel : Poller → ℕ → Channel → Checked Poller
add_channel p addr c = elim (find c.fd p.channels) [
  | some _ ↦ abort
  | none ↦ ok (record {
    store = assign addr (record c { index = some (length p.pollfds) }) p.store;
    pollfds = p.pollfds ++ (record { fd = pos c.fd; events = c.events; revents = none_event } ∷ []);
    channels = assign c.fd addr p.channels;
  })
]

-- The entry of a channel that is known already, written anew.
abbrev pub updated_pollfd : PollFd → Channel → PollFd
updated_pollfd pfd c = record {
  fd = if is_none_event c then negsuc c.fd else pfd.fd;
  events = c.events;
  revents = none_event;
}

change_channel : Poller → ℕ → Channel → ℕ → Checked Poller
change_channel p addr c idx = do
  assert_known p c.fd addr
  pfd ← deref (get_elem? p.pollfds idx)
  assert (eq_ℤ pfd.fd (pos c.fd) || eq_ℤ pfd.fd (negsuc c.fd))
  ok (record p { pollfds = set p.pollfds idx (updated_pollfd pfd c) })

-- `updateChannel(channel)` for the channel at `addr`.
pub update_channel : Poller → ℕ → Checked Poller
unfolding add_channel change_channel
update_channel p addr = do
  c ← deref (find addr p.store)
  elim c.index [ none ↦ add_channel p addr c | some idx ↦ change_channel p addr c idx ]

-- `enableReading`, `enableWriting`, `disableWriting`, `disableAll`: the channel's mask changes, and
-- `update()` hands it on.
pub change_interest : Poller → ℕ → (Channel → Channel) → Checked Poller
unfolding update_channel
change_interest p addr f = do
  c ← deref (find addr p.store)
  update_channel (record p { store = assign addr (f c) p.store }) addr

-- `pop_back` after `iter_swap(begin() + idx, end() - 1)`.
abbrev pub swap_remove : List PollFd → ℕ → PollFd → List PollFd
swap_remove xs idx last = take (length xs - 1) (set xs idx last)

-- The entry at the end takes the place `idx`.
move_last : Poller → ℕ → Checked Poller
move_last p idx = do
  last ← deref (get_elem? p.pollfds (length p.pollfds - 1))
  moved ← deref (find (fd_of last.fd) p.channels)
  c ← deref (find moved p.store)
  ok (record p {
    store = assign moved (record c { index = some idx }) p.store;
    pollfds = swap_remove p.pollfds idx last;
  })

same_events : Events → Events → Bool
same_events a b =
    same a.pollin b.pollin
    && same a.pollpri b.pollpri
    && same a.pollout b.pollout
    && same a.pollerr b.pollerr
    && same a.pollhup b.pollhup
    && same a.pollnval b.pollnval
    && same a.pollrdhup b.pollrdhup
  where
    same : Bool → Bool → Bool
    same x y = x && y || not x && not y

-- `removeChannel(channel)`
pub remove_channel : Poller → ℕ → Checked Poller
unfolding move_last same_events
remove_channel p addr = do
  c ← deref (find addr p.store)
  assert_known p c.fd addr
  assert (is_none_event c)
  idx ← deref c.index
  pfd ← deref (get_elem? p.pollfds idx)
  assert (eq_ℤ pfd.fd (negsuc c.fd) && same_events pfd.events c.events)
  let q = record p { channels = erase c.fd p.channels }
  if idx == length p.pollfds - 1
      then ok (record q { pollfds = take (length p.pollfds - 1) p.pollfds })
      else move_last q idx

-- `channels_.find(pfd->fd)`
abbrev pub find_signed : ℤ → List (ℕ × ℕ) → Option ℕ
find_signed (pos n) m = find n m
find_signed (negsuc n) m = none

-- `fillActiveChannels(numEvents)`: the active channels, whose `revents` are set.
unfoldable pub fill_active : Poller → List PollFd → ℕ → Checked (List ℕ × Poller)
fill_active p [] n = ok ([], p)
fill_active p (pfd ∷ rest) zero = ok ([], p)
fill_active p (pfd ∷ rest) (suc n) = elim (any pfd.revents) [
  | false ↦ fill_active p rest (suc n)
  | true ↦ deref (find_signed pfd.fd p.channels) >>= λ addr. deref (find addr p.store) >>= λ c.
      assert (eq_ℤ (pos c.fd) pfd.fd)
      >> fill_active (record p { store = assign addr (record c { revents = pfd.revents }) p.store })
          rest n
      >>= λ r. ok (addr ∷ r.0, r.1)
]

-- What poll(2) answers: an error, or the number of entries with events and the `revents` of each.
pub data PollOutcome : Type 0 where
  failed : PollOutcome
  polled : ℕ → List Events → PollOutcome

-- The `revents` that poll(2) writes.
unfoldable pub mark : List PollFd → List Events → List PollFd
mark [] es = []
mark (pfd ∷ rest) [] = pfd ∷ rest
mark (pfd ∷ rest) (e ∷ es) = record pfd { revents = e } ∷ mark rest es

pub poll : Poller → PollOutcome → Checked (List ℕ × Poller)
unfolding fill_active mark
poll p failed = ok ([], p)
poll p (polled n es) =
    let pollfds = mark p.pollfds es in fill_active (record p { pollfds = pollfds }) pollfds n
