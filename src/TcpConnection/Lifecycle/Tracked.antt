-- ===== src/TcpConnection/Lifecycle/Tracked.antt =====
-- What a poller knows while the changes of one channel reach it.
use transfer_server.Prelude.{
  ℕ, ◌+◌, ◌≡◌, ◌≢◌, refl, sym, ap, ◌∙◌, true, not, List, [], ◌∷◌, ◌++◌, append_assoc, All, bind-ok,
  subst, none, some, Checked, ok, ◌>>=◌, arith, length, length-set, length-append, find, nat_eq,
  find-assign, get_elem?-set_ne,
}
use transfer_server.Prelude.Int.{pos, negsuc}
use transfer_server.Channel.{Events, Channel, any, none_event, is_none_event}
use transfer_server.Poller.{PollFd, Poller, updated_pollfd, change_interest, remove_channel}
use transfer_server.Poller.Inv.{Inv, Known, Known-unique}
use transfer_server.Poller.Join.{joined, Known-joined, change_interest-new}
use transfer_server.Poller.Update.{changed, stored_as, change_interest-Known}
use transfer_server.Poller.Leave.{remove_channel-Inv}
use transfer_server.TcpConnection.{
  Notice, updates, removes_channel, connection_callback, message_callback, close_callback,
  write_complete_queued, send_queued, shutdown_queued, TcpConnection,
}
use transfer_server.TcpConnection.Made.{torn_down}
use transfer_server.TcpConnection.Lifecycle.{with_events, deliver}
use transfer_server.TcpConnection.Lifecycle.Quiet.{IsQuiet}

-- The poller knows the channel at `addr`, whose entry has the events of its mask.
pub record Tracks (p : Poller) (fd addr size : ℕ) : Type 0 where
  pub inv : Inv p
  pub index : ℕ
  pub channel : Channel
  pub pfd : PollFd
  pub known : Known p channel.fd addr index channel pfd
  pub named : channel.fd ≡ fd
  pub agrees : pfd.events ≡ channel.events
  pub sized : length p.pollfds ≡ size

-- Every other channel that the one poller knows, the other knows too.
abbrev pub Keeps : ℕ → Poller → Poller → Type 0
Keeps fd p p' =
    (fd' a i : ℕ) (e : Channel) (x : PollFd)
    → fd' ≢ fd
    → Known p fd' a i e x
    → (i' : ℕ) × (e' : Channel) × Known p' fd' a i' e' x

pub Keeps-trans : (fd : ℕ) (p q r : Poller) → Keeps fd p q → Keeps fd q r → Keeps fd p r
Keeps-trans fd p q r h k fd' a i e x ne o =
    let (i', e', o') = h fd' a i e x ne o in k fd' a i' e' x ne o'

-- A change of the mask of the channel leaves the others as they are.
changed-Keeps :
    (p : Poller) (addr idx : ℕ) (c c' : Channel) (pfd : PollFd)
    → Known p c.fd addr idx c pfd
    → Keeps c.fd p (changed (stored_as p addr c') c' idx pfd)
changed-Keeps p addr idx c c' pfd k fd' a i e x ne o =
    let u = Known-unique p c.fd fd' addr a idx i c e pfd x k o in
    (
      i,
      e,
      record {
        mapped = o.mapped;
        stored =
            let apart : addr ≢ a = λ q. ne (sym (u.2 q)) in
            ground (arith, find-assign addr a c' p.store, o.stored, apart);
        named = o.named;
        placed = o.placed;
        entry =
            get_elem?-set_ne p.pollfds (updated_pollfd pfd c') (λ q. ne (sym (u.1 q))) ∙ o.entry;
        marked = o.marked;
      },
    )

pub update-Tracks :
    (p : Poller) (fd addr size : ℕ) (e : Events)
    → Tracks p fd addr size
    → (p' : Poller) × (change_interest p addr (with_events e) ≡ ok p')
      × (t : Tracks p' fd addr size) × (t.channel.events ≡ e)
      × (is_none_event t.channel ≡ true → t.pfd.fd ≡ negsuc t.channel.fd)
      × Keeps fd p p'
update-Tracks p fd addr size e t =
    let c = t.channel in
    let c' = with_events e c in
    let (eq, inv, known) =
      change_interest-Known p addr t.index c c' t.pfd (with_events e) t.inv t.known refl refl
        refl in
    (
      changed (stored_as p addr c') c' t.index t.pfd,
      eq,
      record {
        inv = inv;
        index = t.index;
        channel = c';
        pfd = updated_pollfd t.pfd c';
        known = known;
        named = t.named;
        agrees = refl;
        sized = length-set p.pollfds t.index (updated_pollfd t.pfd c') ∙ t.sized;
      },
      refl,
      λ n. ground (arith),
      subst (λ n. Keeps n p (changed (stored_as p addr c') c' t.index t.pfd)) t.named
          (changed-Keeps p addr t.index c c' t.pfd t.known),
    )

pub deliver-Tracks :
    (ns : List Notice) (p : Poller) (fd addr size : ℕ)
    → All IsQuiet ns
    → Tracks p fd addr size
    → (p' : Poller) × (deliver addr ns p ≡ ok p') × Tracks p' fd addr size × Keeps fd p p'
unfolding deliver
deliver-Tracks [] p fd addr size q t = (p, refl, t, λ fd' a i e x _ o. (i, e, o))
deliver-Tracks (updates e ∷ ns) p fd addr size q t =
    let (p₁, eq, t₁, _, _, k₁) = update-Tracks p fd addr size e t in
    let (p₂, eq₂, t₂, k₂) = deliver-Tracks ns p₁ fd addr size q.1 t₁ in
    (p₂, rw eq eq₂, t₂, Keeps-trans fd p p₁ p₂ k₁ k₂)
deliver-Tracks (removes_channel ∷ ns) p fd addr size q t = absurd q.0
deliver-Tracks (connection_callback ∷ ns) p fd addr size q t =
    deliver-Tracks ns p fd addr size q.1 t
deliver-Tracks (message_callback ∷ ns) p fd addr size q t = deliver-Tracks ns p fd addr size q.1 t
deliver-Tracks (close_callback ∷ ns) p fd addr size q t = deliver-Tracks ns p fd addr size q.1 t
deliver-Tracks (write_complete_queued ∷ ns) p fd addr size q t =
    deliver-Tracks ns p fd addr size q.1 t
deliver-Tracks (send_queued _ ∷ ns) p fd addr size q t = deliver-Tracks ns p fd addr size q.1 t
deliver-Tracks (shutdown_queued ∷ ns) p fd addr size q t = deliver-Tracks ns p fd addr size q.1 t

pub deliver-append :
    (ms ns : List Notice) (p q : Poller) (addr : ℕ)
    → deliver addr ms p ≡ ok q
    → deliver addr (ms ++ ns) p ≡ deliver addr ns q
unfolding deliver
deliver-append [] ns p q addr e = ap (λ (m : Checked Poller). m >>= deliver addr ns) e
deliver-append (updates v ∷ ms) ns p q addr e =
    let (r, first, rest) = bind-ok (change_interest p addr (with_events v)) (deliver addr ms) q e in
    rw first (deliver-append ms ns r q addr rest)
deliver-append (removes_channel ∷ ms) ns p q addr e =
    let (r, first, rest) = bind-ok (remove_channel p addr) (deliver addr ms) q e in
    rw first (deliver-append ms ns r q addr rest)
deliver-append (connection_callback ∷ ms) ns p q addr e = deliver-append ms ns p q addr e
deliver-append (message_callback ∷ ms) ns p q addr e = deliver-append ms ns p q addr e
deliver-append (close_callback ∷ ms) ns p q addr e = deliver-append ms ns p q addr e
deliver-append (write_complete_queued ∷ ms) ns p q addr e = deliver-append ms ns p q addr e
deliver-append (send_queued _ ∷ ms) ns p q addr e = deliver-append ms ns p q addr e
deliver-append (shutdown_queued ∷ ms) ns p q addr e = deliver-append ms ns p q addr e

-- The channel is new to the poller: the first change of its mask brings it in.
pub first-Tracks :
    (p : Poller) (fd addr : ℕ) (c : Channel) (e : Events)
    → c.fd ≡ fd
    → Inv p
    → find addr p.store ≡ some c
    → c.index ≡ none
    → find fd p.channels ≡ none
    → (p' : Poller) × (change_interest p addr (with_events e) ≡ ok p')
      × Tracks p' fd addr (length p.pollfds + 1)
      × Keeps fd p p'
first-Tracks p fd addr c e n v stored new free =
    let unused : find c.fd p.channels ≡ none = ap (λ k. find k p.channels) n ∙ free in
    let c' = with_events e c in
    let (eq, inv, known) =
      change_interest-new p addr c c' (with_events e) v stored new unused refl new in
    (
      joined p addr c',
      eq,
      record {
        inv = inv;
        index = length p.pollfds;
        channel = record c' { index = some (length p.pollfds) };
        pfd = record { fd = pos c.fd; events = e; revents = none_event };
        known = known;
        named = n;
        agrees = refl;
        sized = length-append p.pollfds _;
      },
      λ fd' a i d x _ o. (i, d, Known-joined p addr c c' stored new unused fd' a i d x o),
    )

-- The channel goes.
pub last-Tracks :
    (p : Poller) (fd addr size : ℕ)
    → Tracks p fd addr (size + 1)
    → (p' : Poller) × (deliver addr
          (updates none_event ∷ connection_callback ∷ removes_channel ∷ [])
          p
        ≡ ok p')
      × Inv p'
      × (find fd p'.channels ≡ none)
      × (length p'.pollfds ≡ size)
      × Keeps fd p p'
unfolding deliver
last-Tracks p fd addr size t =
    let (p₁, eq, t₁, none₁, marked, k₁) = update-Tracks p fd addr (size + 1) none_event t in
    let silent : is_none_event t₁.channel ≡ true = ap (λ e. not (any e)) none₁ in
    let (p₂, eq₂, v₂, free, shorter, k₂) =
      remove_channel-Inv p₁ addr t₁.index t₁.channel t₁.pfd t₁.inv t₁.known silent (marked silent)
        t₁.agrees in
    (
      p₂,
      rw (eq, eq₂) refl,
      v₂,
      subst (λ n. find n p₂.channels ≡ none) t₁.named free,
      omega (arith, shorter, t₁.sized),
      Keeps-trans fd p p₁ p₂ k₁ (subst (λ n. Keeps n p₁ p₂) t₁.named k₂),
    )

pub torn_down-notices :
    (c : TcpConnection)
    → (torn_down c).notices
      ≡ c.notices ++ (updates none_event ∷ connection_callback ∷ removes_channel ∷ [])
torn_down-notices c = simp append_assoc
