-- ===== src/TcpServer/Tests.antt =====
-- A server with two threads takes a socket and lets it go (irono/net/TcpServer.cc).
use irono.Base.{ℕ, arith, refl, true, [], ◌∷◌, Returns}
use irono.EventLoopThreadPool
use irono.Sockets.{returned, zeroed, get_local_addr}
use irono.TcpServer.{
  Connection, TcpServer, create, start, set_thread_num, new_connection, connect_established,
  set_connection,
}
use irono.TcpServer.Run.{
  Reach, creates, applies, sets_threads, starts, accepts, closes, apply, Serves, apply-Serves,
}

abbrev conn : Connection ℕ
conn = record { id = 1; sockfd = 9; local_addr = zeroed; loop = 20 }

abbrev sized : TcpServer ℕ
unfolding create set_thread_num EventLoopThreadPool.create EventLoopThreadPool.set_thread_num
sized = set_thread_num (create 0) 2

abbrev started : TcpServer ℕ
started = record {
  pool = record {
    base_loop = 0;
    started = true;
    num_threads = 2;
    next = 0;
    loops = 20 ∷ 21 ∷ [];
    init_calls = 20 ∷ 21 ∷ [];
  };
  started = true;
  listenning = true;
  next_conn_id = 1;
  connections = [];
  dispatched = [];
}

abbrev serving : TcpServer ℕ
serving = record started {
  pool = record {
    base_loop = 0;
    started = true;
    num_threads = 2;
    next = 1;
    loops = 20 ∷ 21 ∷ [];
    init_calls = 20 ∷ 21 ∷ [];
  };
  next_conn_id = 2;
  connections = conn ∷ [];
  dispatched = connect_established conn ∷ [];
}

started_reached : Reach started
unfolding sized create start set_thread_num EventLoopThreadPool.create EventLoopThreadPool.start
    EventLoopThreadPool.set_thread_num
started_reached =
    applies sized started (starts true (20 ∷ 21 ∷ []))
      (applies (create 0) sized (sets_threads 2) (creates 0) tt refl) (λ _. refl) refl

serving_reached : Reach serving
unfolding new_connection get_local_addr EventLoopThreadPool.get_next_loop set_connection
serving_reached =
    applies started serving (accepts 9 (returned zeroed)) started_reached
      (refl, omega arith, (zeroed, refl)) refl

apply-Serves_example : Returns (apply serving (closes conn)) Serves
apply-Serves_example = apply-Serves serving (closes conn) serving_reached refl
