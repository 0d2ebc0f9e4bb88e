-- ===== src/Connector.antt =====
-- The connecting side of irono/net/Connector.h and Connector.cc, driven in its loop's thread. The
-- results of the socket calls are arguments.
pub mod Backoff
pub mod Sockets
mod Tests
use irono.Sockets.{Call, returned, failed, or_die}
use irono.Base.{
  ℕ, ◌*◌, ◌+◌, ◌-◌, Bool, true, false, not, Option, none, some, List, [], ◌∷◌, ◌++◌, min, ltb,
  if◌then◌else◌, assert, ◌>>=◌, ◌>>◌,
}

pub data State : Type 0 where
  disconnected connecting connected : State

-- The cases of the `switch` in `connect`; `other` is its default.
pub data Errno : Type 0 where
  no_error einprogress eintr eisconn : Errno
  eagain eaddrinuse eaddrnotavail econnrefused enetunreach : Errno
  eacces eperm eafnosupport ealready ebadf efault enotsock : Errno
  other : ℕ → Errno

abbrev pub max_retry_delay_ms : ℕ
max_retry_delay_ms = 30 * 1000

abbrev pub init_retry_delay_ms : ℕ
init_retry_delay_ms = 500

-- `channel` is the descriptor of the channel object, if there is one, and `watched` says whether it is
-- in the poller. `resets` counts the queued calls of `resetChannel`, and `timers` holds the delays of
-- the calls of `startInLoop` that were asked for and have not been cancelled or run, newest first.
-- `opened`, `handed` and `closed` are the sockets made, passed to the new-connection callback, and
-- closed.
pub record Connector : Type 0 where
  pub connect : Bool
  pub state : State
  pub channel : Option ℕ
  pub watched : Bool
  pub resets : ℕ
  pub retry_delay_ms : ℕ
  pub timers : List ℕ
  pub opened : List ℕ
  pub handed : List ℕ
  pub closed : List ℕ

unfoldable pub create : Connector
create = record {
  connect = false;
  state = disconnected;
  channel = none;
  watched = false;
  resets = 0;
  retry_delay_ms = init_retry_delay_ms;
  timers = [];
  opened = [];
  handed = [];
  closed = [];
}

abbrev pub close_socket : Connector → ℕ → Connector
close_socket c fd = record c { closed = fd ∷ c.closed }

abbrev pub is_disconnected : State → Bool
is_disconnected disconnected = true
is_disconnected _ = false

abbrev pub is_connecting : State → Bool
is_connecting connecting = true
is_connecting _ = false

abbrev pub is_none : Option ℕ → Bool
is_none none = true
is_none (some fd) = false

unfoldable pub retry : Connector → ℕ → Connector
retry c fd =
    let c' = record (close_socket c fd) { state = disconnected } in
    if c.connect
    then record c' {
      timers = c.retry_delay_ms ∷ c.timers;
      retry_delay_ms = min (c.retry_delay_ms * 2) max_retry_delay_ms;
    }
    else c'

-- `connecting` of the source.
unfoldable pub watch : Connector → ℕ → Option Connector
watch c fd = do
  assert (is_none c.channel)
  some (record c { state = connecting; channel = some fd; watched = true })

-- What the `switch` does with the error of `connect(2)`.
pub data Verdict : Type 0 where
  wait try_again give_up : Verdict

unfoldable pub verdict : Errno → Verdict
verdict no_error = wait
verdict einprogress = wait
verdict eintr = wait
verdict eisconn = wait
verdict eagain = try_again
verdict eaddrinuse = try_again
verdict eaddrnotavail = try_again
verdict econnrefused = try_again
verdict enetunreach = try_again
verdict eacces = give_up
verdict eperm = give_up
verdict eafnosupport = give_up
verdict ealready = give_up
verdict ebadf = give_up
verdict efault = give_up
verdict enotsock = give_up
verdict (other n) = give_up

act_on : Verdict → Connector → ℕ → Option Connector
unfolding watch retry
act_on wait c fd = watch c fd
act_on try_again c fd = some (retry c fd)
act_on give_up c fd = some (close_socket c fd)

-- What `socket(2)` says when it is called for a new socket.
abbrev pub NewSocket : Type 0
NewSocket = Call ℕ

abbrev pub is_made : NewSocket → Bool
is_made (returned fd) = true
is_made (failed e) = false

-- `connect`: `socket` is the new socket, and `e` what `connect(2)` said. Without a socket,
-- `createNonblockingOrDie` is `LOG_FATAL`.
unfoldable pub do_connect : Connector → NewSocket → Errno → Option Connector
unfolding act_on verdict
do_connect c socket e = do
  fd ← or_die socket
  act_on (verdict e) (record c { opened = fd ∷ c.opened }) fd

unfoldable pub start_in_loop : Connector → NewSocket → Errno → Option Connector
start_in_loop c socket e = do
  assert (is_disconnected c.state)
  if c.connect then do_connect c socket e else some c

unfoldable pub start : Connector → NewSocket → Errno → Option Connector
start c socket e = start_in_loop (record c { connect = true }) socket e

unfoldable pub restart : Connector → NewSocket → Errno → Option Connector
restart c socket e =
    start_in_loop
      (record c { state = disconnected; retry_delay_ms = init_retry_delay_ms; connect = true })
      socket e

-- Only the last timer's identifier is kept, and it is the one cancelled.
abbrev pub drop_first : List ℕ → List ℕ
drop_first [] = []
drop_first (t ∷ ts) = ts

unfoldable pub stop : Connector → Connector
stop c = record c { connect = false; timers = drop_first c.timers }

-- A timer runs out: it calls `startInLoop`.
unfoldable pub timer_fires : Connector → NewSocket → Errno → Option Connector
timer_fires c socket e = start_in_loop (record c { timers = drop_first c.timers }) socket e

unfoldable pub remove_and_reset_channel : Connector → Connector
remove_and_reset_channel c = record c { watched = false; resets = c.resets + 1 }

-- A queued `resetChannel` runs.
unfoldable pub reset_channel : Connector → Connector
reset_channel c = record c { channel = none; resets = c.resets - 1 }

-- Without a channel the source would follow a null pointer.
unfoldable pub handle_write : Connector → ℕ → Bool → Option Connector
handle_write c err self_connect = elim c.state [
  | connecting ↦ elim c.channel [
    | none ↦ none
    | some fd ↦
        let c' = remove_and_reset_channel c in
        let up = record c' { state = connected } in
        some (
          if ltb 0 err
          then retry c' fd
          else (if self_connect
              then retry c' fd
              else (if c.connect
                  then record up { handed = fd ∷ c.handed }
                  else close_socket up fd)))
  ]
  | disconnected ↦ some c
  | connected ↦ none
]

unfoldable pub handle_error : Connector → Option Connector
handle_error c = do
  assert (is_connecting c.state)
  elim c.channel [ none ↦ none | some fd ↦ some (retry (remove_and_reset_channel c) fd) ]
