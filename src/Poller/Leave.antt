-- ===== src/Poller/Leave.antt =====
-- `removeChannel` on a channel that the poller knows.
use transfer_server.Prelude.{
  ℕ, ◌+◌, ◌-◌, ◌≡◌, ◌≢◌, ap, ◌∙◌, none, true, arith, length, length-set, length-take, set, find,
  erase, nat_eq, find-erase, ℕ_discrete, get_elem?-lt, get_elem?-some, ok,
}
use transfer_server.Prelude.Int.{negsuc}
use transfer_server.Channel.{Events, Channel, is_none_event}
use transfer_server.Poller.{PollFd, Poller, same_events, move_last, remove_channel}
use transfer_server.Poller.Inv.{Known, Inv}
use transfer_server.Poller.Remove.{
  last-Known, cut, Known-cut, cut-Inv, moved, moved-Known, moved-Inv,
}

same_events_self : (e : Events) → same_events e e ≡ true
unfolding same_events
same_events_self e = ground (arith)

-- Where the invariant holds, `removeChannel` on a known channel whose mask is empty, and whose entry is
-- marked and agrees with it, ends well: the map no longer has its descriptor, the array is one shorter,
-- the invariant holds again, and every other known channel is still known, with its entry as it was.
pub remove_channel-Inv :
    (p : Poller) (addr idx : ℕ) (c : Channel) (pfd : PollFd)
    → Inv p
    → Known p c.fd addr idx c pfd
    → is_none_event c ≡ true
    → pfd.fd ≡ negsuc c.fd
    → pfd.events ≡ c.events
    → (p' : Poller) × (remove_channel p addr ≡ ok p')
      × Inv p'
      × (find c.fd p'.channels ≡ none)
      × (length p'.pollfds + 1 ≡ length p.pollfds)
      × ((fd a i : ℕ) (e : Channel) (x : PollFd)
          → fd ≢ c.fd
          → Known p fd a i e x
          → (i' : ℕ) × (e' : Channel) × Known p' fd a i' e' x)
unfolding remove_channel move_last
remove_channel-Inv p addr idx c pfd v k n g q =
    let lt = get_elem?-lt p.pollfds idx k.entry in
    let same : same_events pfd.events c.events ≡ true =
      ap (λ e. same_events e c.events) q ∙ same_events_self c.events in
    let free : find c.fd (erase c.fd p.channels) ≡ none =
      ground (arith, find-erase c.fd c.fd p.channels) in
    elim (ℕ_discrete idx (length p.pollfds - 1)) [
      | yes e ↦ (
        cut p addr idx c pfd v k,
        ground (arith, k.stored, k.mapped, n, k.placed, k.entry, g, same, e),
        cut-Inv p addr idx c pfd v k e,
        free,
        omega (arith, lt, length-take (length p.pollfds - 1) p.pollfds),
        λ fd a i d x ne o. (i, d, Known-cut p addr idx c pfd v k fd a i d x e ne o),
      )
      | no e ↦
          let (last, at) = get_elem?-some p.pollfds (length p.pollfds - 1) (omega (arith, lt)) in
          let (m, d, l) = v.slots (length p.pollfds - 1) last at in
          (
            moved p addr idx c pfd v k m d last l e,
            ground (
              arith,
              k.stored,
              k.mapped,
              n,
              k.placed,
              k.entry,
              g,
              same,
              e,
              at,
              (last-Known p addr idx c pfd v k m d last l e).mapped,
              l.stored,
            ),
            moved-Inv p addr idx c pfd v k m d last l e,
            free,
            omega (
              arith,
              lt,
              length-take (length p.pollfds - 1) (set p.pollfds idx last),
              length-set p.pollfds idx last,
            ),
            λ fd a i e' x ne o. moved-Known p addr idx c pfd v k m d last l e fd a i e' x ne o,
          )
    ]
