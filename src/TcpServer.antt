-- ===== src/TcpServer.antt =====
-- The server of irono/net/TcpServer.h and TcpServer.cc, in the acceptor's loop: its map of connections,
-- and what it dispatches to the I/O loops.
pub mod Connections
pub mod Serving
pub mod Run
mod Tests
use irono.Base.{
  ℕ, ◌+◌, ◌-◌, ◌^◌, ltb, Bool, true, false, not, Option, none, some, List, [], ◌∷◌, ◌++◌, ◌==◌,
  if◌then◌else◌, assert, ◌>>=◌, ◌>>◌,
}
use irono.EventLoopThreadPool
use irono.Sockets.{Call, SockAddr, get_local_addr}
use irono.EventLoopThreadPool.{EventLoopThreadPool, get_next_loop}

-- `INT_MAX`.
abbrev pub int_max : ℕ
int_max = 2 ^ 31 - 1

-- A connection's name is the server's name and `#id`; `id` stands for it.
pub record Connection (L : Type 0) : Type 0 where
  pub id : ℕ
  pub sockfd : ℕ
  pub local_addr : SockAddr
  pub loop : L

-- A functor handed to the connection's own loop: by `runInLoop` or by `queueInLoop`.
pub data Dispatch (L : Type 0) : Type 0 where
  connect_established : Connection L → Dispatch L
  connect_destroyed : Connection L → Dispatch L

pub record TcpServer (L : Type 0) : Type 0 where
  pub pool : EventLoopThreadPool L
  pub started : Bool
  pub listenning : Bool
  pub next_conn_id : ℕ
  pub connections : List (Connection L)
  pub dispatched : List (Dispatch L)

module _ {L : Type 0} where
  unfoldable pub create : L → TcpServer L
  create loop = record {
    pool = EventLoopThreadPool.create loop;
    started = false;
    listenning = false;
    next_conn_id = 1;
    connections = [];
    dispatched = [];
  }

  unfoldable pub set_thread_num : TcpServer L → ℕ → TcpServer L
  set_thread_num s n = record s { pool = EventLoopThreadPool.set_thread_num s.pool n }

  -- `spawned` are the loops of the threads that the pool starts.
  unfoldable pub start : TcpServer L → Bool → List L → Option (TcpServer L)
  start s has_callback spawned = do
    pool ← if s.started then some s.pool else EventLoopThreadPool.start s.pool has_callback spawned
    some (record s { pool = pool; started = true; listenning = true })

  -- `connections_[connName] = conn`.
  unfoldable pub set_connection : Connection L → List (Connection L) → List (Connection L)
  set_connection c [] = c ∷ []
  set_connection c (d ∷ ds) = if d.id == c.id then c ∷ ds else d ∷ set_connection c ds

  -- `connections_.erase(name)`: how many were erased, and the rest.
  unfoldable pub erase_connection : ℕ → List (Connection L) → ℕ × List (Connection L)
  erase_connection n [] = (0, [])
  erase_connection n (d ∷ ds) =
      let rest = erase_connection n ds in if d.id == n then (1, ds) else (rest.0, d ∷ rest.1)

  -- `local` is what `getsockname` returns. `nextConnId_` is an `int`, and counting it up past
  -- `INT_MAX` is a fault.
  unfoldable pub new_connection : TcpServer L → ℕ → Call SockAddr → Option (TcpServer L)
  new_connection s sockfd local = do
    assert (ltb s.next_conn_id int_max)
    local_addr ← get_local_addr local
    (io_loop, pool) ← get_next_loop s.pool
    let conn : Connection L = record {
      id = s.next_conn_id;
      sockfd = sockfd;
      local_addr = local_addr;
      loop = io_loop;
    }
    some (record s {
      pool = pool;
      next_conn_id = s.next_conn_id + 1;
      connections = set_connection conn s.connections;
      dispatched = s.dispatched ++ (connect_established conn ∷ []);
    })

  -- `removeConnectionInLoop`, to which the close callback comes by `removeConnection`.
  unfoldable pub remove_connection : TcpServer L → Connection L → Option (TcpServer L)
  remove_connection s conn = do
    let (n, rest) = erase_connection conn.id s.connections
    assert (n == 1)
    some (record s {
      connections = rest;
      dispatched = s.dispatched ++ (connect_destroyed conn ∷ []);
    })
