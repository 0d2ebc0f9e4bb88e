-- ===== src/PingPong.antt =====
-- The ping-pong client and server (irono/example/pingpong/client.cc and server.cc): sessions that send
-- back what they receive, over the client of irono/net.
pub mod Wires
pub mod Start
pub mod Cycle
pub mod Flow
pub mod Quit
mod Tests
use irono.Base.{
  ℕ, zero, suc, ◌+◌, ◌-◌, ◌%◌, ◌^◌, Bool, true, false, Option, none, some, List, [], ◌∷◌, ◌++◌,
  length, ltb, ◌==◌, if◌then◌else◌, ◌>>=◌, update,
}
use irono.EventLoopThreadPool
use irono.EventLoopThreadPool.{EventLoopThreadPool}
use irono.Connector.{Errno, NewSocket}
use irono.TcpClient
use irono.TcpClient.{TcpClient}

-- The 64-bit counters are plain numbers here.
pub record Session (L : Type 0) : Type 0 where
  pub loop : L
  pub client : TcpClient
  pub bytes_read : ℕ
  pub bytes_written : ℕ
  pub messages_read : ℕ

-- `size` is that of `sessions_`, whose elements are `sessions 0` to `sessions (size - 1)`.
-- `reports` are the totals that `onDisconnect` printed, bytes and messages; it queues `quit` each
-- time.
pub record Client (L : Type 0) : Type 0 where
  pub thread_pool : EventLoopThreadPool L
  pub session_count : ℕ
  pub size : ℕ
  pub sessions : ℕ → Session L
  pub message : List ℕ
  pub num_connected : ℕ
  pub reports : List (ℕ × ℕ)

-- `AtomicInt32::incrementAndGet` and `decrementAndGet`.
abbrev pub increment : ℕ → ℕ
increment n = (n + 1) % 2 ^ 32

abbrev pub decrement : ℕ → ℕ
decrement n = (n + (2 ^ 32 - 1)) % 2 ^ 32

-- `message_`: the `n` characters that the constructor puts into it.
unfoldable pub block : ℕ → List ℕ
block zero = []
block (suc n) = block n ++ (n % 128 ∷ [])

-- The server's `onMessage`: what it sends for what it read.
abbrev pub reply : List ℕ → List ℕ
reply bytes = bytes

-- `TcpConnection::send`: what the connection takes on, which is nothing unless it is `kConnected`.
abbrev pub send : Bool → List ℕ → List ℕ
send is_connected bytes = if is_connected then bytes else []

module _ {L : Type 0} where
  unfoldable pub new_session : L → TcpClient → Session L
  new_session loop client = record {
    loop = loop;
    client = client;
    bytes_read = 0;
    bytes_written = 0;
    messages_read = 0;
  }

  -- The loop of the constructor over the sessions. `attempts` are what `socket(2)` and `connect(2)` say
  -- for the first `connect` of each session.
  unfoldable pub start_sessions : ℕ → (ℕ → NewSocket × Errno) → Client L → Option (Client L)
  start_sessions zero attempts c = some c
  start_sessions (suc n) attempts c = EventLoopThreadPool.get_next_loop c.thread_pool >>= λ r.
      TcpClient.start TcpClient.create (attempts c.size).0 (attempts c.size).1 >>= λ client.
      start_sessions n attempts (record c {
        thread_pool = r.1;
        sessions = update c.sessions c.size (new_session (r.0) client);
        size = c.size + 1;
      })

  -- `spawned` are the loops of the threads that the pool starts.
  unfoldable pub create : L → ℕ → ℕ → ℕ → List L → (ℕ → NewSocket × Errno) → Option (Client L)
  create loop block_size session_count thread_count spawned attempts =
      let pool = EventLoopThreadPool.create loop in
      let sized =
        if ltb 1 thread_count then EventLoopThreadPool.set_thread_num pool thread_count else pool in
      EventLoopThreadPool.start sized false spawned >>= λ started.
      start_sessions session_count attempts (record {
        thread_pool = started;
        session_count = session_count;
        size = 0;
        sessions = λ i. new_session loop TcpClient.create;
        message = block block_size;
        num_connected = 0;
        reports = [];
      })

  -- `Session::onMessage`: the client afterwards, and what goes to the connection, which is in the state
  -- `kConnected` or not.
  unfoldable pub on_message : Client L → ℕ → Bool → List ℕ → Client L × List ℕ
  on_message c i is_connected bytes =
      let s = c.sessions i in
      (
        record c {
          sessions = update c.sessions i (record s {
            messages_read = s.messages_read + 1;
            bytes_read = s.bytes_read + length bytes;
            bytes_written = s.bytes_written + length bytes;
          });
        },
        send is_connected bytes,
      )

  -- The two sums of `onDisconnect`, over the first `n` sessions.
  abbrev pub totals : (ℕ → Session L) → ℕ → ℕ × ℕ
  totals sessions zero = (0, 0)
  totals sessions (suc n) =
      let sum = totals sessions n in
      (sum.0 + (sessions n).bytes_read, sum.1 + (sessions n).messages_read)

  -- `onConnect` only counts and logs.
  unfoldable pub on_connect : Client L → Client L
  on_connect c = record c { num_connected = increment c.num_connected }

  unfoldable pub on_disconnect : Client L → Client L
  on_disconnect c =
      let c' = record c { num_connected = decrement c.num_connected } in
      if c'.num_connected == 0
      then record c' { reports = c.reports ++ (totals c.sessions c.size ∷ []) }
      else c'

  -- `Session::onConnection`, and what goes to the connection: `up` is `conn->connected()`, so that the
  -- message is sent in the state `kConnected`.
  unfoldable pub on_connection : Client L → Bool → Client L × List ℕ
  on_connection c true = (on_connect c, send true c.message)
  on_connection c false = (on_disconnect c, [])

  -- Every session calls `disconnect` of its client.
  unfoldable pub handle_timeout : Client L → Client L
  handle_timeout c = record c {
    sessions = λ i.
        let s = c.sessions i in
        if ltb i c.size then record s { client = TcpClient.disconnect s.client } else s;
  }
