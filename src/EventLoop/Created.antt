-- ===== src/EventLoop/Created.antt =====
-- `EventLoop()` and `~EventLoop()`, with `TimerQueue()`: the loop of a thread, its two channels in its
-- poller, and `t_loopInThisThread`. `timerfd_create` has answered with a descriptor; of `eventfd` the
-- error is `none`. The addresses at which the loop and its channels lie are arguments, and so is the
-- first address that `new` has for a timer.
use transfer_server.Prelude.{
  ℕ, ◌≡◌, ◌≢◌, refl, Bool, true, false, not, [], ◌∷◌, Option, none, some, Checked, ok, abort,
  assert, bind-ok, deref, ◌>>=◌, ◌>>◌, arith, length, find, assign, nat_eq,
}
use transfer_server.Channel
use transfer_server.Channel.{Channel, enable_reading, read_event}
use transfer_server.Poller.{PollFd, Poller, change_interest}
use transfer_server.Poller.Inv.{Inv, Known}
use transfer_server.Poller.Join.{joined, Known-joined, change_interest-new}
use transfer_server.EventLoop.{EventLoop}

-- A channel of a descriptor with a read callback.
abbrev pub reading_channel : ℕ → Channel
reading_channel fd = record (Channel.create fd) { has_read = true }

-- Where the loop and its two channels lie, with the descriptor of the timer.
pub record Places : Type 0 where
  pub self : ℕ
  pub timer_channel : ℕ
  pub timer_fd : ℕ
  pub wakeup_channel : ℕ
  pub free : ℕ

-- `t_loopInThisThread`, and whether LOG_FATAL was called.
pub record Thread : Type 0 where
  pub loop_in_this_thread : Option ℕ
  pub fatal : Bool

abbrev pub claim_thread : ℕ → Thread → Thread
claim_thread self th = elim th.loop_in_this_thread [
  | some _ ↦ record th { fatal = true }
  | none ↦ record th { loop_in_this_thread = some self }
]

-- The poller before the two channels enable reading.
abbrev pub new_poller : Places → ℕ → Poller
new_poller at fd = record {
  store =
      (at.timer_channel, reading_channel at.timer_fd)
      ∷ (at.wakeup_channel, reading_channel fd)
      ∷ [];
  pollfds = [];
  channels = [];
}

-- `EventLoop()`, for what `eventfd` answers.
unfoldable pub create : Places → Option ℕ → Thread → Checked (EventLoop × Thread)
create at eventfd th = do
  fd ← deref eventfd
  with_timer ← change_interest (new_poller at fd) at.timer_channel enable_reading
  let claimed = claim_thread at.self th
  with_both ← change_interest with_timer at.wakeup_channel enable_reading
  ok (
    record {
      looping = false;
      quitting = false;
      calling = false;
      poller = with_both;
      timer_queue = record { heap = []; next = at.free; timers = []; armed = none };
      eventfd = 0;
      pending = [];
    },
    claimed,
  )

-- `~EventLoop()`
unfoldable pub destroy : EventLoop → Thread → Checked Thread
destroy l th = do assert (not l.looping); ok (record th { loop_in_this_thread = none })

-- The poller knows a channel that waits for reading, at this place of the array.
abbrev pub Reads : Poller → ℕ → ℕ → ℕ → Type 0
Reads p fd addr i =
    (c : Channel) × (pfd : PollFd) × Known p fd addr i c pfd
    × (c.events ≡ read_event)
    × (pfd.events ≡ read_event)

new-Inv : (at : Places) (fd : ℕ) → Inv (new_poller at fd)
unfolding find
new-Inv at fd = record { slots = λ i pfd e. cc e; known = λ fd' addr e. cc e }

new-timer :
    (at : Places) (fd : ℕ)
    → find at.timer_channel (new_poller at fd).store ≡ some (reading_channel at.timer_fd)
unfolding find
new-timer at fd = ground (arith)

new-wakeup :
    (at : Places) (fd : ℕ)
    → at.timer_channel ≢ at.wakeup_channel
    → find at.wakeup_channel (new_poller at fd).store ≡ some (reading_channel fd)
unfolding find
new-wakeup at fd apart = ground (arith, apart)

second :
    (at : Places) (fd : ℕ)
    → at.timer_channel ≢ at.wakeup_channel
    → at.timer_fd ≢ fd
    → let q =
        joined (new_poller at fd) at.timer_channel (enable_reading (reading_channel at.timer_fd)) in
      (find at.wakeup_channel q.store ≡ some (reading_channel fd)) × (find fd q.channels ≡ none)
unfolding find assign Channel.create
second at fd apart ne = (ground (arith, apart), ground (arith, ne))

-- A loop whose channels are two, with descriptors of their own, comes to be: its poller's invariant
-- holds, and the poller waits for reading on the timer and on the eventfd, the first two of its
-- array. Without an eventfd the process aborts.
pub create-Reads :
    (at : Places) (fd : ℕ) (th : Thread)
    → at.timer_channel ≢ at.wakeup_channel
    → at.timer_fd ≢ fd
    → (l : EventLoop) × (create at (some fd) th ≡ ok (l, claim_thread at.self th))
      × Inv l.poller
      × Reads l.poller at.timer_fd at.timer_channel 0
      × Reads l.poller fd at.wakeup_channel 1
      × (length l.poller.pollfds ≡ 2)
      × (l.looping ≡ false)
      × (create at none th ≡ abort)
unfolding create find Channel.create
create-Reads at fd th apart ne =
    let p = new_poller at fd in
    let c = reading_channel at.timer_fd in
    let (eq, v, k) =
      change_interest-new p at.timer_channel c (enable_reading c) enable_reading (new-Inv at fd)
        (new-timer at fd) refl refl refl refl in
    let q = joined p at.timer_channel (enable_reading c) in
    let d = reading_channel fd in
    let (stored, unused) = second at fd apart ne in
    let (eq', v', k') =
      change_interest-new q at.wakeup_channel d (enable_reading d) enable_reading v stored refl
        unused refl refl in
    let r = joined q at.wakeup_channel (enable_reading d) in
    (
      record {
        looping = false;
        quitting = false;
        calling = false;
        poller = r;
        timer_queue = record { heap = []; next = at.free; timers = []; armed = none };
        eventfd = 0;
        pending = [];
      },
      ground (arith, eq, eq'),
      v',
      (
        record (enable_reading c) { index = some 0 },
        _,
        Known-joined q at.wakeup_channel d (enable_reading d) stored refl unused at.timer_fd
            at.timer_channel 0 _ _ k,
        refl,
        refl,
      ),
      (record (enable_reading d) { index = some 1 }, _, k', refl, refl),
      refl,
      refl,
      refl,
    )

-- In a thread that has a loop already a second one is made all the same, and only a line of the log tells
-- of it; when the second is destroyed, the thread's pointer, which was to the first, is NULL.
pub destroy-second :
    (at : Places) (fd first : ℕ) (th : Thread) (l : EventLoop) (th' : Thread)
    → th.loop_in_this_thread ≡ some first
    → create at (some fd) th ≡ ok (l, th')
    → (th'.fatal ≡ true)
      × (th'.loop_in_this_thread ≡ some first)
      × (destroy l th' ≡ ok (record th' { loop_in_this_thread = none }))
unfolding create destroy
destroy-second at fd first th l th' has e =
    let (p, _, e₁) =
      bind-ok (change_interest (new_poller at fd) at.timer_channel enable_reading) _ (l, th') e in
    let (q, _, e₂) = bind-ok (change_interest p at.wakeup_channel enable_reading) _ (l, th') e₁ in
    ground (arith, has, e₂)
