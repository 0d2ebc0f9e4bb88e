-- ===== src/TcpClient.antt =====
-- The client of irono/net/TcpClient.h and TcpClient.cc, in its loop's thread: a connector, and at most
-- one connection.
pub mod Reconnect
pub mod Run
mod Tests
use irono.Base.{
  ℕ, ◌+◌, Bool, true, false, ◌&&◌, Option, none, some, List, [], ◌∷◌, ◌++◌, length, ltb, ◌==◌,
  if◌then◌else◌, assert, ◌>>=◌, ◌>>◌,
}
use irono.Connector
use irono.Connector.{Connector, Errno, NewSocket}

-- A connection is its number. `shut` are the connections whose `shutdown` was called, `destroyed` those
-- whose `connectDestroyed` was queued.
pub record TcpClient : Type 0 where
  pub connector : Connector
  pub retry : Bool
  pub connect : Bool
  pub next_conn_id : ℕ
  pub connection : Option ℕ
  pub established : List ℕ
  pub shut : List ℕ
  pub destroyed : List ℕ

unfoldable pub create : TcpClient
create = record {
  connector = Connector.create;
  retry = false;
  connect = true;
  next_conn_id = 1;
  connection = none;
  established = [];
  shut = [];
  destroyed = [];
}

unfoldable pub enable_retry : TcpClient → TcpClient
enable_retry c = record c { retry = true }

-- `connect` of the source; `socket` and `e` are what `socket(2)` and `connect(2)` say.
unfoldable pub start : TcpClient → NewSocket → Errno → Option TcpClient
start c socket e = do
  connector ← Connector.start c.connector socket e
  some (record c { connect = true; connector = connector })

abbrev pub to_list : Option ℕ → List ℕ
to_list none = []
to_list (some conn) = conn ∷ []

unfoldable pub disconnect : TcpClient → TcpClient
disconnect c = record c { connect = false; shut = c.shut ++ to_list c.connection }

unfoldable pub stop : TcpClient → TcpClient
stop c = record c { connect = false; connector = Connector.stop c.connector }

unfoldable pub new_connection : TcpClient → TcpClient
new_connection c = record c {
  next_conn_id = c.next_conn_id + 1;
  connection = some c.next_conn_id;
  established = c.established ++ (c.next_conn_id ∷ []);
}

abbrev is_connection : Option ℕ → ℕ → Bool
is_connection none conn = false
is_connection (some d) conn = d == conn

unfoldable pub remove_connection : TcpClient → ℕ → NewSocket → Errno → Option TcpClient
remove_connection c conn socket e = do
  assert (is_connection c.connection conn)
  let c' = record c { connection = none; destroyed = c.destroyed ++ (conn ∷ []) }
  if c.retry && c.connect
      then (Connector.restart c.connector socket e >>= λ connector.
          some (record c' { connector = connector }))
      else some c'

-- The connector's socket becomes writable; a socket that the connector hands over comes to
-- `newConnection`.
unfoldable pub connector_writable : TcpClient → ℕ → Bool → Option TcpClient
unfolding new_connection
connector_writable c err self_connect = do
  connector ← Connector.handle_write c.connector err self_connect
  let c' = record c { connector = connector }
  some (if ltb (length c.connector.handed) (length connector.handed) then new_connection c' else c')
