-- ===== src/Tests/Loops.antt =====
-- The event loop and its poller at concrete inputs.
use transfer_server.Prelude.{
  ℕ, ◌+◌, ◌≢◌, length, take, inr, ◌<◌, ◌≡◌, ◌⊎◌, refl, true, false, [], ◌∷◌, arith, ok, none, some,
  find, assign, get_elem?, nat_eq,
}
use transfer_server.Prelude.Int.{pos, negsuc}
use transfer_server.Channel.{
  Channel, create, on_read, handle_event, none_event, read_event, enable_reading, disable_all,
}
use transfer_server.Poller.{
  PollFd, Poller, updated_pollfd, change_interest, remove_channel, poll, polled, mark,
}
use transfer_server.Poller.Active.{active}
use transfer_server.Poller.Polled.{poll-Inv}
use transfer_server.Poller.Leave.{remove_channel-Inv}
use transfer_server.Poller
use transfer_server.Poller.Inv.{Known, store-Inv}
use transfer_server.Poller.Update.{
  changed, stored_as, change_interest-Known, change_interest-skipped,
}
use transfer_server.Poller.Join.{joined, change_interest-new}
use transfer_server.EventLoop.Dispatch.{poll_and_handle}
use transfer_server.EventLoop.Dispatch.Called.{poll_and_handle-calls}
use transfer_server.EventLoop.{Functor, functor, done, queue, run_now, stop, EventLoop, Found, loop}
use transfer_server.EventLoop.Functors.{queued_by, stopped_by, stops}
use transfer_server.EventLoop.Rounds.{all_turns, begun, loop-stops}
use transfer_server.EventLoop.Wakeup.{
  in_phase, polling, other_push, none_yet, one_more, State, no_lost_wakeup,
}

abbrev no_channels : Poller
no_channels = record { store = (100, create 4) ∷ []; pollfds = []; channels = [] }

no_channels-Inv : Poller.Inv.Inv no_channels
unfolding find
no_channels-Inv = record {
  slots = λ i pfd h. absurd (ground arith);
  known = λ fd addr h. absurd (ground arith);
}

abbrev reading : Channel
reading = enable_reading (create 4)

joined_step :
    (change_interest no_channels 100 enable_reading ≡ ok (joined no_channels 100 reading))
    × Poller.Inv.Inv (joined no_channels 100 reading)
    × Known
        (joined no_channels 100 reading)
        4
        100
        0
        (record reading { index = some 0 })
        (record { fd = pos 4; events = read_event; revents = none_event })
unfolding find create
joined_step =
    change_interest-new no_channels 100 (create 4) reading enable_reading no_channels-Inv refl refl
      refl refl refl

-- The state after `enableReading`, and after `disableAll` on top of it.
abbrev one_channel : Poller
one_channel = joined no_channels 100 reading

abbrev known_reading : Channel
known_reading = record reading { index = some 0 }

abbrev entry_4 : PollFd
entry_4 = record { fd = pos 4; events = read_event; revents = none_event }

abbrev silent : Channel
silent = disable_all known_reading

abbrev one_silent : Poller
one_silent = changed (stored_as one_channel 100 silent) silent 0 entry_4

silent_step :
    (change_interest one_channel 100 disable_all ≡ ok one_silent)
    × Poller.Inv.Inv one_silent
    × Known one_silent silent.fd 100 0 silent (updated_pollfd entry_4 silent)
unfolding create
silent_step =
    change_interest-Known one_channel 100 0 known_reading silent entry_4 disable_all joined_step.1
      joined_step.2 refl refl refl

change_interest-skipped_example :
    (p' : Poller) × (x : PollFd) × (change_interest one_silent 100 enable_reading ≡ ok p')
    × (get_elem? p'.pollfds 0 ≡ some x)
    × (x.events ≡ read_event)
    × (x.fd ≡ negsuc 4)
unfolding create
change_interest-skipped_example =
    change_interest-skipped one_silent 100 0 silent known_reading
      (record { fd = negsuc 4; events = none_event; revents = none_event }) enable_reading
      silent_step.1 silent_step.2 refl refl refl refl

poll-Inv_example :
    (p' : Poller) × (poll one_channel (polled 1 (read_event ∷ []))
      ≡ ok (take 1 (active one_channel.channels (mark one_channel.pollfds (read_event ∷ []))), p'))
    × Poller.Inv.Inv p'
    × (p'.channels ≡ one_channel.channels)
unfolding mark
poll-Inv_example = poll-Inv one_channel 1 (read_event ∷ []) joined_step.1 (inr refl, tt)

-- The same channel with a read callback.
abbrev heard : Poller
heard = record one_channel {
  store = assign 100 (record known_reading { has_read = true }) one_channel.store;
}

heard-Inv : Poller.Inv.Inv heard
unfolding find assign create
heard-Inv =
    store-Inv one_channel 100 known_reading (record known_reading { has_read = true }) joined_step.1
      refl refl refl

poll_and_handle-calls_example :
    (p' : Poller) × (poll_and_handle heard (polled 1 (read_event ∷ []))
      ≡ ok ((100, on_read) ∷ [], p'))
unfolding mark find assign create handle_event
poll_and_handle-calls_example =
    poll_and_handle-calls heard 1 (read_event ∷ []) heard-Inv (inr refl, tt)

remove_channel-Inv_example :
    (p' : Poller) × (remove_channel one_silent 100 ≡ ok p')
    × Poller.Inv.Inv p'
    × (find 4 p'.channels ≡ none)
    × (length p'.pollfds + 1 ≡ 1)
    × ((fd a i : ℕ) (e : Channel) (x : PollFd)
        → fd ≢ 4
        → Known one_silent fd a i e x
        → (i' : ℕ) × (e' : Channel) × Known p' fd a i' e' x)
unfolding create
remove_channel-Inv_example =
    remove_channel-Inv one_silent 100 0 silent (updated_pollfd entry_4 silent) silent_step.1
      silent_step.2 refl refl refl

abbrev idle : EventLoop
idle = record {
  looping = false;
  quitting = false;
  calling = false;
  poller = no_channels;
  timer_queue = record { heap = []; next = 1; timers = []; armed = none };
  eventfd = 0;
  pending = [];
}

-- 1 runs 2 at once, queues 3 and stops the loop.
abbrev busy : Functor
busy = functor 1 (run_now (functor 2 done) (queue (functor 3 done) (stop done)))

abbrev loaded : EventLoop
loaded = record idle { pending = busy ∷ functor 4 done ∷ [] }

abbrev found : Found
found = record { woken = true; handlers = queue (functor 5 done) done }

-- A turn in which nothing happens, and then the one that stops.
abbrev quiet : Found
quiet = record { woken = false; handlers = done }

abbrev stopping : Found
stopping = record { woken = true; handlers = queue (functor 5 done) (stop done) }

abbrev patient : EventLoop
patient = record idle { pending = functor 4 done ∷ [] }

loop-stops_example :
    let r = all_turns (begun patient) (quiet ∷ stopping ∷ []) in
    loop patient (quiet ∷ stopping ∷ quiet ∷ []) ≡ ok (r.0, record r.1 { looping = false })
unfolding stops stopped_by queued_by
loop-stops_example = loop-stops patient (quiet ∷ []) stopping quiet [] refl (refl, tt) refl

abbrev asleep : State
asleep = in_phase polling 0 idle

abbrev pushed : State
pushed = in_phase polling 1 (record idle { pending = busy ∷ [] })

no_lost_wakeup_example : (0 < 0) ⊎ (0 < 1)
no_lost_wakeup_example =
    no_lost_wakeup asleep pushed (record { phase = refl; about = refl; pending = refl })
      (one_more asleep pushed none_yet (other_push polling 0 idle busy)) refl (λ e. ground arith)
