-- ===== src/TcpServer/Serving.antt =====
-- Taking and removing connections (irono/net/TcpServer.cc).
use irono.Base.{
  ℕ, ◌<◌, ◌≤◌, true, ltb, ◌≡◌, ◌⊎◌, inl, inr, refl, none, some, [], ◌∷◌, ◌++◌, length, ◌==◌,
  if◌then◌else◌, arith, Option-cases, Returns, Returns-some,
}
use irono.Sockets.{SockAddr, returned, get_local_addr}
use irono.EventLoopThreadPool.{EventLoopThreadPool, get_next_loop}
use irono.EventLoopThreadPool.RoundRobin.{get_next_loop-eq}
use irono.TcpServer.{
  int_max, Connection, TcpServer, connect_established, connect_destroyed, new_connection,
  remove_connection,
}
use irono.TcpServer.Connections.{
  find, Unique, find-set_connection, set_connection-Unique, find-erase_connection,
  erase_connection-Unique, erase_connection-one, erase_connection-zero,
}

module _ {L : Type 0} where
  -- The pool has no loops, or `next` is one of them.
  abbrev pub IsReady : EventLoopThreadPool L → Type 0
  IsReady p = (p.next < length p.loops) ⊎ (length p.loops ≡ 0)

  pub record Inv (s : TcpServer L) : Type 0 where
    pub unique : Unique s.connections
    -- Connections stand under their own names, which have been given out.
    pub named :
        (n : ℕ) (c : Connection L)
        → find n s.connections ≡ some c
        → (c.id ≡ n) × (n < s.next_conn_id)
    pub fits : s.next_conn_id ≤ int_max
    pub ready : IsReady s.pool

  next_loop-IsReady :
      (p : EventLoopThreadPool L)
      → IsReady p
      → (loop : L) × (p' : EventLoopThreadPool L) × (get_next_loop p ≡ some (loop, p'))
        × IsReady p'
        × (p'.started ≡ p.started)
  unfolding get_next_loop
  next_loop-IsReady p (inl h) = (_, _, get_next_loop-eq p h, inl (omega arith), refl)
  next_loop-IsReady p (inr h) = (p.base_loop, p, ground arith, inr h, refl)

  -- What `newConnection` does for a socket: a connection with a name that no other has is in the
  -- map, the others are where they were, and it is established in its own loop.
  pub record Takes (s : TcpServer L) (sockfd : ℕ) (addr : SockAddr) (s' : TcpServer L)
      : Type 0 where
    pub inv : Inv s'
    pub conn : Connection L
    pub socket : (conn.sockfd ≡ sockfd) × (conn.local_addr ≡ addr)
    pub new : find conn.id s.connections ≡ none
    pub map :
        (n : ℕ) → find n s'.connections ≡ (if conn.id == n then some conn else find n s.connections)
    pub queued : s'.dispatched ≡ s.dispatched ++ (connect_established conn ∷ [])
    pub still : (s'.started ≡ s.started) × ((s'.pool).started ≡ (s.pool).started)

  unused : (s : TcpServer L) → Inv s → find s.next_conn_id s.connections ≡ none
  unused s v = elim (Option-cases (find s.next_conn_id s.connections)) [
    | inl e ↦ e
    | inr (c, e) ↦ absurd (omega (arith, (v.named s.next_conn_id c e).1))
  ]

  -- On a server with the invariant, where `getsockname` gives an address and the connection's number
  -- is below `INT_MAX`, `newConnection` comes back: the pool has a loop for the connection. Its name is
  -- new to the map, so that it takes no other's place there, it is established in its own loop, and
  -- the invariant holds again.
  pub new_connection-Takes :
      (s : TcpServer L) (sockfd : ℕ) (addr : SockAddr)
      → Inv s
      → s.next_conn_id < int_max
      → Returns (new_connection s sockfd (returned addr)) (Takes s sockfd addr)
  unfolding new_connection get_local_addr
  new_connection-Takes s sockfd addr v low =
      let (loop, pool, e, ready, same) = next_loop-IsReady s.pool v.ready in
      let below : ltb s.next_conn_id int_max ≡ true = ground arith in
      let conn : Connection L = record {
        id = s.next_conn_id;
        sockfd = sockfd;
        local_addr = addr;
        loop = loop;
      } in
      rw (below, e)
        (record {
          inv = record {
            unique = set_connection-Unique conn s.connections v.unique;
            named = λ n c h. ground (arith, find-set_connection n conn s.connections, v.named n c);
            fits = omega arith;
            ready = ready;
          };
          conn = conn;
          socket = (refl, refl);
          new = unused s v;
          map = λ n. find-set_connection n conn s.connections;
          queued = refl;
          still = (refl, same);
        })

  -- What removing `conn` does: it alone leaves the map, and is destroyed in its own loop.
  pub record Drops (s : TcpServer L) (conn : Connection L) (s' : TcpServer L) : Type 0 where
    pub inv : Inv s'
    pub map :
        (n : ℕ) → find n s'.connections ≡ (if conn.id == n then none else find n s.connections)
    pub queued : s'.dispatched ≡ s.dispatched ++ (connect_destroyed conn ∷ [])
    pub still : (s'.started ≡ s.started) × (s'.listenning ≡ s.listenning) × (s'.pool ≡ s.pool)

  -- On a server with the invariant, removing a connection that is in the map passes the assertion,
  -- takes out that one only, and queues its destruction in its own loop; the invariant holds again.
  pub remove_connection-Drops :
      (s : TcpServer L) (conn : Connection L)
      → Inv s
      → find conn.id s.connections ≡ some conn
      → Returns (remove_connection s conn) (Drops s conn)
  unfolding remove_connection
  remove_connection-Drops s conn v h =
      rw (erase_connection-one conn.id conn s.connections h) (record {
        inv = record {
          unique = erase_connection-Unique conn.id s.connections v.unique;
          named = λ n c e.
              ground (arith, find-erase_connection n conn.id s.connections v.unique, v.named n c);
          fits = v.fits;
          ready = v.ready;
        };
        map = λ n. find-erase_connection n conn.id s.connections v.unique;
        queued = refl;
        still = (refl, refl, refl);
      })

  missing :
      (s : TcpServer L) (conn : Connection L)
      → find conn.id s.connections ≡ none
      → remove_connection s conn ≡ none
  unfolding remove_connection
  missing s conn h = rw (erase_connection-zero conn.id s.connections h) refl

  -- On a server with the invariant a connection that is in the map can be removed once: the second
  -- removal, as a second `handleClose` would ask for, fails the assertion.
  pub remove_connection_twice :
      (s : TcpServer L) (conn : Connection L)
      → Inv s
      → find conn.id s.connections ≡ some conn
      → (s' : TcpServer L) × (remove_connection s conn ≡ some s')
        × (remove_connection s' conn ≡ none)
  remove_connection_twice s conn v h =
      let (s', e, d) =
        Returns-some (remove_connection s conn) (Drops s conn)
          (remove_connection-Drops s conn v h) in
      (s', e, missing s' conn (ground (arith, d.map conn.id)))
