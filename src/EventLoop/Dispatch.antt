-- ===== src/EventLoop/Dispatch.antt =====
-- The part of `EventLoop::loop` from `poll` to the last `handleEvent`, over src/Poller.cpp and
-- src/Channel.cpp: the callbacks that one turn of the loop calls, each with the address of its channel. What
-- the callbacks do to the channels is left out here.
pub mod Ready
pub mod Called
use transfer_server.Prelude.{
  ℕ, List, [], ◌∷◌, ◌++◌, Checked, ok, deref, ◌>>=◌, map, find, assign, nat_eq,
}
use transfer_server.Channel.{Events, Call, handle_event}
use transfer_server.Poller.{Poller, PollOutcome, poll}

-- `for (it = activeChannels_.begin(); …) (*it)->handleEvent(pollReturnTime_);`
unfoldable pub handle_events : List ℕ → Poller → Checked (List (ℕ × Call) × Poller)
handle_events [] p = ok ([], p)
handle_events (addr ∷ rest) p = deref (find addr p.store) >>= λ c.
    let (calls, c') = handle_event c in
    handle_events rest (record p { store = assign addr c' p.store }) >>= λ r.
    ok (map (λ k. (addr, k)) calls ++ r.0, r.1)

unfoldable pub poll_and_handle : Poller → PollOutcome → Checked (List (ℕ × Call) × Poller)
unfolding handle_events
poll_and_handle p o = poll p o >>= λ r. handle_events r.0 r.1
