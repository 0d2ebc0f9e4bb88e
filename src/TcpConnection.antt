-- ===== src/TcpConnection.antt =====
-- One connection of irono/net/TcpConnection.h and TcpConnection.cc, driven in its loop's thread.
-- The results of `write` and `readv` are arguments; what the connection asks of its socket, its
-- loop and the user's callbacks is recorded.
pub mod Inv
pub mod Sending
pub mod Draining
pub mod Step
pub mod Stream
mod Tests
use irono.Base.{
  ℕ, Bool, true, false, not, ◌&&◌, ◌||◌, Option, none, some, List, [], ◌∷◌, ◌++◌, length, take,
  drop, ltb, leb, ◌==◌, if◌then◌else◌, assert, ◌>>=◌, ◌>>◌,
}
use irono.Buffer
use irono.Buffer.{Buffer, Read, got, failed, readable_bytes, append, retrieve, read_fd}
use irono.Channel.{
  Events, none_event, Change, enable_reading, enable_writing, disable_writing, disable_all,
  change_events,
}

pub data State : Type 0 where
  connecting connected disconnecting disconnected : State

-- What a connection asks for: a poller update of its channel, its removal, a callback of the user or
-- of the server, the write-complete callback queued in the loop.
pub data Action : Type 0 where
  update_channel remove_channel : Action
  connection_callback message_callback close_callback : Action
  queue_write_complete : Action
  log_error : Action

-- `sent` is what `write` has taken so far, and `write_shut` says that `shutdownWrite` was called.
pub record Connection : Type 0 where
  pub state : State
  pub events : Events
  pub input : Buffer
  pub output : Buffer
  pub has_write_complete : Bool
  pub sent : List ℕ
  pub write_shut : Bool
  pub actions : List Action

-- What `write` returned.
pub data Write : Type 0 where
  wrote : ℕ → Write
  write_failed : ℕ → Write

unfoldable pub create : Bool → Connection
create has_write_complete = record {
  state = connecting;
  events = none_event;
  input = Buffer.create;
  output = Buffer.create;
  has_write_complete = has_write_complete;
  sent = [];
  write_shut = false;
  actions = [];
}

abbrev pub is_connected : State → Bool
is_connected connected = true
is_connected _ = false

abbrev pub is_disconnecting : State → Bool
is_disconnecting disconnecting = true
is_disconnecting _ = false

abbrev pub is_connecting : State → Bool
is_connecting connecting = true
is_connecting _ = false

abbrev pub is_writing : Connection → Bool
is_writing c = c.events.pollout

abbrev pub act : Connection → Action → Connection
act c a = record c { actions = c.actions ++ (a ∷ []) }

-- A channel call: the mask changes, and the poller is told.
abbrev pub change : Connection → Change → Connection
change c ch = act (record c { events = change_events ch c.events }) update_channel

abbrev pub write_complete : Connection → Connection
write_complete c = if c.has_write_complete then act c queue_write_complete else c

-- `nwrote` after the direct `write`; a failed one counts as nothing written.
abbrev pub written : Write → ℕ
written (wrote n) = n
written (write_failed errno) = 0

abbrev pub succeeded : Write → Bool
succeeded (wrote n) = true
succeeded (write_failed errno) = false

-- The direct `write` of `sendInLoop`, if nothing is waiting.
unfoldable pub write_direct : Connection → List ℕ → Write → Connection
write_direct c message w =
    let c' = record c { sent = c.sent ++ take (written w) message } in
    if succeeded w && leb (length message) (written w) then write_complete c' else c'

-- The rest goes to the output buffer, and writing is switched on.
unfoldable pub keep_rest : Connection → List ℕ → ℕ → Option Connection
keep_rest c message nwrote =
    if ltb nwrote (length message)
    then (append c.output (drop nwrote message) >>= λ output.
        let c' = record c { output = output } in
        some (if is_writing c' then c' else change c' enable_writing))
    else some c

unfoldable pub send_in_loop : Connection → List ℕ → Write → Option Connection
send_in_loop c message w =
    if not (is_writing c) && readable_bytes c.output == 0
    then keep_rest (write_direct c message w) message (written w)
    else keep_rest c message 0

unfoldable pub send : Connection → List ℕ → Write → Option Connection
send c message w = if is_connected c.state then send_in_loop c message w else some c

-- `send(Buffer*)`: the buffer is emptied only if the connection is up.
unfoldable pub send_buffer : Connection → Buffer → Write → Option (Connection × Buffer)
send_buffer c b w =
    let (message, rest) = Buffer.retrieve_as_string b in
    if is_connected c.state
    then (send_in_loop c message w >>= λ c'. some (c', rest))
    else some (c, b)

unfoldable pub shutdown_in_loop : Connection → Connection
shutdown_in_loop c = if is_writing c then c else record c { write_shut = true }

unfoldable pub shutdown : Connection → Connection
shutdown c =
    if is_connected c.state then shutdown_in_loop (record c { state = disconnecting }) else c

unfoldable pub connect_established : Connection → Option Connection
connect_established c = do
  assert (is_connecting c.state)
  some (act (change (record c { state = connected }) enable_reading) connection_callback)

unfoldable pub connect_destroyed : Connection → Option Connection
connect_destroyed c = do
  assert (is_connected c.state || is_disconnecting c.state)
  some (
      act (act (change (record c { state = disconnected }) disable_all) connection_callback)
        remove_channel)

unfoldable pub handle_close : Connection → Option Connection
handle_close c = do
  assert (is_connected c.state || is_disconnecting c.state)
  some (act (change c disable_all) close_callback)

unfoldable pub handle_error : Connection → Connection
handle_error c = act c log_error

unfoldable pub handle_read : Connection → Read → Option Connection
unfolding handle_error
handle_read c (failed errno) = some (handle_error c)
handle_read c (got []) = handle_close c
handle_read c (got (x ∷ bytes)) = do
  input ← read_fd c.input (got (x ∷ bytes))
  some (act (record c { input = input }) message_callback)

-- After a `write` from the output buffer that took `n > 0` bytes.
unfoldable pub after_write : Connection → ℕ → Option Connection
after_write c n = retrieve c.output n >>= λ output.
    let c' = record c { output = output; sent = c.sent ++ take n (Buffer.Inv.content c.output) } in
    some (
      if readable_bytes output == 0
      then (let done = write_complete (change c' disable_writing) in
          if is_disconnecting c.state then shutdown_in_loop done else done)
      else c')

unfoldable pub handle_write : Connection → Write → Option Connection
handle_write c w = if is_writing c && ltb 0 (written w) then after_write c (written w) else some c
