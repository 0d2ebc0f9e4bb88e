-- ===== src/Channel.antt =====
-- The channel of irono/net/Channel.h and Channel.cc: what one file descriptor waits for, and which
-- callbacks an event runs. An `int` of `poll` flags is the record of its bits.
use irono.Base.{ℕ, Bool, true, false, not, ◌&&◌, ◌||◌, Option, none, List, [], ◌∷◌, ◌++◌}

pub record Events : Type 0 where
  pub pollin : Bool
  pub pollpri : Bool
  pub pollout : Bool
  pub pollerr : Bool
  pub pollhup : Bool
  pub pollnval : Bool
  pub pollrdhup : Bool

abbrev pub none_event : Events
none_event = record {
  pollin = false;
  pollpri = false;
  pollout = false;
  pollerr = false;
  pollhup = false;
  pollnval = false;
  pollrdhup = false;
}

-- `index` is `none` for a negative `index_`, as after the constructor.
pub record Channel : Type 0 where
  pub fd : ℕ
  pub events : Events
  pub revents : Events
  pub index : Option ℕ
  pub event_handling : Bool

unfoldable pub create : ℕ → Channel
create fd = record {
  fd = fd;
  events = none_event;
  revents = none_event;
  index = none;
  event_handling = false;
}

abbrev pub is_none : Events → Bool
is_none e = not (
    e.pollin
    || (e.pollpri || (e.pollout || (e.pollerr || (e.pollhup || (e.pollnval || e.pollrdhup))))))

abbrev pub is_none_event : Channel → Bool
is_none_event c = is_none c.events

abbrev pub is_writing : Channel → Bool
is_writing c = c.events.pollout

-- The four changes of the mask. Each is followed by `update`, which is the poller's.
pub data Change : Type 0 where
  enable_reading enable_writing disable_writing disable_all : Change

unfoldable pub change_events : Change → Events → Events
change_events enable_reading e = record e { pollin = true; pollpri = true }
change_events enable_writing e = record e { pollout = true }
change_events disable_writing e = record e { pollout = false }
change_events disable_all e = none_event

pub data Callback : Type 0 where
  close_callback error_callback read_callback write_callback : Callback

-- Which of the four callbacks are set.
pub record Installed : Type 0 where
  pub close : Bool
  pub error : Bool
  pub read : Bool
  pub write : Bool

abbrev when : Bool → Callback → List Callback
when true c = c ∷ []
when false c = []

-- The callbacks that `handleEvent` runs, in order. It tests `revents_`, which no callback changes.
unfoldable pub handle_event : Installed → Events → List Callback
handle_event cb revents =
    when (revents.pollhup && (not revents.pollin && cb.close)) close_callback
    ++ (when ((revents.pollerr || revents.pollnval) && cb.error) error_callback
        ++ (when ((revents.pollin || (revents.pollpri || revents.pollrdhup)) && cb.read)
              read_callback
            ++ when (revents.pollout && cb.write) write_callback))
