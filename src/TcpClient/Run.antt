-- ===== src/TcpClient/Run.antt =====
-- A client from its constructor on, through any calls and events (irono/net/TcpClient.cc).
use irono.Base.{ℕ, ◌<◌, ◌≡◌, Bool, true, ◌&&◌, Option, none, some, ◌++◌, ◌>>=◌}
use irono.Connector.{
  Connector, Errno, NewSocket, is_made, disconnected, reset_channel, handle_error,
}
use irono.Connector
use irono.Connector.Sockets as Sockets
use irono.Connector.Sockets.{resets, writes, restarts}
use irono.TcpClient.{
  TcpClient, create, enable_retry, start, disconnect, stop, remove_connection, connector_writable,
  to_list,
}
use irono.TcpClient.Reconnect.{Inv}

-- `enableRetry`, `connect`, `disconnect` and `stop`, what happens to the connector, and the close callback of the
-- connection. Where a socket may be opened, it comes with the results of `socket(2)` and `connect(2)`.
pub data Action : Type 0 where
  connects : NewSocket → Errno → Action
  enables_retry disconnects cancels : Action
  retries : NewSocket → Errno → Action
  resets_channel fails : Action
  gets_writable : ℕ → Bool → Action
  closes : ℕ → NewSocket → Errno → Action

-- The connector's own events, which do not reach the client.
abbrev lifted : TcpClient → Option Connector → Option TcpClient
lifted c m = m >>= λ k. some (record c { connector = k })

abbrev pub apply : TcpClient → Action → Option TcpClient
apply c (connects socket e) = start c socket e
apply c enables_retry = some (enable_retry c)
apply c disconnects = some (disconnect c)
apply c cancels = some (stop c)
apply c (retries socket e) = lifted c (Connector.timer_fires c.connector socket e)
apply c resets_channel = some (record c { connector = reset_channel c.connector })
apply c fails = lifted c (handle_error c.connector)
apply c (gets_writable err self) = connector_writable c err self
apply c (closes conn socket e) = remove_connection c conn socket e

-- Attempts begin when no other is under way, and get a socket from `socket(2)`; a queued `resetChannel` runs; events come to a channel
-- that is watched; a close callback comes from the connection, after the channel was reset.
abbrev pub Allows : TcpClient → Action → Type 0
Allows c (connects socket e) =
    (c.connector.state ≡ disconnected) × (c.connector.channel ≡ none) × (is_made socket ≡ true)
Allows c enables_retry = Unit {0}
Allows c disconnects = Unit {0}
Allows c cancels = Unit {0}
Allows c (retries socket e) =
    (c.connector.state ≡ disconnected)
    × (c.connector.channel ≡ none)
    × (c.connector.connect ≡ true → is_made socket ≡ true)
Allows c resets_channel = 0 < c.connector.resets
Allows c fails = c.connector.watched ≡ true
Allows c (gets_writable err self) = c.connector.watched ≡ true
Allows c (closes conn socket e) =
    (c.connection ≡ some conn)
    × (c.connector.channel ≡ none)
    × (c.retry && c.connect ≡ true → is_made socket ≡ true)

pub data Reach : TcpClient → Type 0 where
  creates : Reach create
  applies : (c c' : TcpClient) (a : Action) → Reach c → Allows c a → apply c a ≡ some c' → Reach c'

-- The invariant, and: the connections established so far are those destroyed and the present one.
abbrev pub IsSound : TcpClient → Type 0
IsSound c = Inv c × (c.established ≡ c.destroyed ++ to_list c.connection)
