-- ===== src/Channel.antt =====
-- include/Channel.h and src/Channel.cpp: a file descriptor with the events it waits for and the
-- callbacks it gives them to. A bit mask of <poll.h> is the set of its flags (the flags are distinct
-- bits): `|` joins two sets, `& ~` takes one out of the other, and 0 is the empty set.
use transfer_server.Prelude.{
  ℕ, Bool, true, false, not, ◌&&◌, ◌||◌, List, [], ◌∷◌, ◌++◌, Option, none,
}

pub record Events : Type 0 where
  pub pollin : Bool
  pub pollpri : Bool
  pub pollout : Bool
  pub pollerr : Bool
  pub pollhup : Bool
  pub pollnval : Bool
  pub pollrdhup : Bool

abbrev pub none_event : Events
none_event = record {
  pollin = false;
  pollpri = false;
  pollout = false;
  pollerr = false;
  pollhup = false;
  pollnval = false;
  pollrdhup = false;
}

-- `POLLIN | POLLPRI`
abbrev pub read_event : Events
read_event = record none_event { pollin = true; pollpri = true }

abbrev pub write_event : Events
write_event = record none_event { pollout = true }

abbrev pub union : Events → Events → Events
union a b = record {
  pollin = a.pollin || b.pollin;
  pollpri = a.pollpri || b.pollpri;
  pollout = a.pollout || b.pollout;
  pollerr = a.pollerr || b.pollerr;
  pollhup = a.pollhup || b.pollhup;
  pollnval = a.pollnval || b.pollnval;
  pollrdhup = a.pollrdhup || b.pollrdhup;
}

abbrev pub without : Events → Events → Events
without a b = record {
  pollin = a.pollin && not b.pollin;
  pollpri = a.pollpri && not b.pollpri;
  pollout = a.pollout && not b.pollout;
  pollerr = a.pollerr && not b.pollerr;
  pollhup = a.pollhup && not b.pollhup;
  pollnval = a.pollnval && not b.pollnval;
  pollrdhup = a.pollrdhup && not b.pollrdhup;
}

-- Whether the mask is not 0.
abbrev pub any : Events → Bool
any a = a.pollin || a.pollpri || a.pollout || a.pollerr || a.pollhup || a.pollnval || a.pollrdhup

-- `index_` is `none` where the source has -1. A callback is set or it is not.
pub record Channel : Type 0 where
  pub fd : ℕ
  pub events : Events
  pub revents : Events
  pub index : Option ℕ
  pub event_handling : Bool
  pub has_read : Bool
  pub has_write : Bool
  pub has_error : Bool
  pub has_close : Bool

unfoldable pub create : ℕ → Channel
create fd = record {
  fd = fd;
  events = none_event;
  revents = none_event;
  index = none;
  event_handling = false;
  has_read = false;
  has_write = false;
  has_error = false;
  has_close = false;
}

abbrev pub is_none_event : Channel → Bool
is_none_event c = not (any c.events)

abbrev pub is_writing : Channel → Bool
is_writing c = c.events.pollout

-- The changes of the mask; `update()`, which follows each in the source, is `Poller.update_channel`.
abbrev pub enable_reading : Channel → Channel
enable_reading c = record c { events = union c.events read_event }

abbrev pub enable_writing : Channel → Channel
enable_writing c = record c { events = union c.events write_event }

abbrev pub disable_writing : Channel → Channel
disable_writing c = record c { events = without c.events write_event }

abbrev pub disable_all : Channel → Channel
disable_all c = record c { events = none_event }

pub data Call : Type 0 where
  on_close on_error on_read on_write : Call

abbrev call_if : Bool → Call → List Call
call_if true k = k ∷ []
call_if false k = []

-- `handleEvent`: the callbacks called, in their order.
unfoldable pub handle_event : Channel → List Call × Channel
handle_event c = (
  call_if (c.revents.pollhup && not c.revents.pollin && c.has_close) on_close
      ++ (call_if ((c.revents.pollerr || c.revents.pollnval) && c.has_error) on_error
          ++ (call_if ((c.revents.pollin || c.revents.pollpri || c.revents.pollrdhup) && c.has_read)
                on_read
              ++ call_if (c.revents.pollout && c.has_write) on_write)),
  record c { event_handling = false },
)
