-- ===== src/PingPong/Tests.antt =====
-- One session with a message of three characters (irono/example/pingpong/client.cc).
use irono.Base.{ℕ, ◌≡◌, refl, Option, none, some, [], arith}
use irono.EventLoopThreadPool
use irono.Sockets.{returned, or_die}
use irono.TcpClient
use irono.Connector
use irono.Connector.{Errno, NewSocket, einprogress}
use irono.PingPong.{
  Client, create, new_session, on_connection, on_message, on_connect, start_sessions, block,
}
use irono.PingPong.Wires.{
  Network, Reach, quiet, connected, server_read, client_read, starts, goes_on, connects,
  server_reads, client_reads,
}
use irono.PingPong.Flow.{Circulates, flows_lem}

abbrev attempts : ℕ → NewSocket × Errno
attempts i = (returned 5, einprogress)

client_of : Option (Client ℕ) → Client ℕ
client_of none = record {
  thread_pool = EventLoopThreadPool.create 0;
  session_count = 0;
  size = 0;
  sessions = λ i. new_session 0 TcpClient.create;
  message = [];
  num_connected = 0;
  reports = [];
}
client_of (some c) = c

client : Client ℕ
client = client_of (create 0 3 1 1 [] attempts)

client-eq : create 0 3 1 1 [] attempts ≡ some client
unfolding client client_of create on_connection on_message on_connect EventLoopThreadPool.start
    EventLoopThreadPool.create start_sessions EventLoopThreadPool.get_next_loop TcpClient.start
    Connector.start Connector.start_in_loop TcpClient.create Connector.create Connector.do_connect
    or_die block
client-eq = refl

-- The session is up, the server has sent two of the three characters back, and they are read.
abbrev network : Network ℕ
network = client_read (server_read (connected (quiet client) 0) 0 2) 0 2

network_reached : Reach network
unfolding client client_of create on_connection on_message on_connect EventLoopThreadPool.start
    EventLoopThreadPool.create start_sessions EventLoopThreadPool.get_next_loop TcpClient.start
    Connector.start Connector.start_in_loop TcpClient.create Connector.create Connector.do_connect
    or_die block
network_reached =
    goes_on
      (goes_on
        (goes_on (starts 0 3 1 1 [] attempts client client-eq) (connects 0 (omega arith) refl))
        (server_reads 0 2 refl (omega arith)))
      (client_reads 0 2 refl (omega arith))

flows_lem_example : Circulates network 0
unfolding client client_of create on_connection on_message on_connect EventLoopThreadPool.start
    EventLoopThreadPool.create start_sessions EventLoopThreadPool.get_next_loop TcpClient.start
    Connector.start Connector.start_in_loop TcpClient.create Connector.create Connector.do_connect
    or_die block
flows_lem_example = flows_lem network 0 network_reached refl (omega arith)
