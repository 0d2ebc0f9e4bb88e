-- ===== src/TcpServer/Run.antt =====
-- A server from its constructor on, through any calls (irono/net/TcpServer.cc).
use irono.Base.{
  ℕ, ◌<◌, ◌≡◌, ◌⊎◌, sym, ◌∙◌, inl, inr, refl, ap, subst, Bool, true, false, Option, none, some,
  List, [], ◌∷◌, ◌++◌, length, ◌==◌, if◌then◌else◌, arith, Bool-cases, Returns, Returns-mono,
}
use irono.EventLoopThreadPool
use irono.Sockets.{Call, SockAddr, returned}
use irono.TcpServer.{
  int_max, Connection, Dispatch, TcpServer, create, set_thread_num, start, connect_established,
  connect_destroyed, new_connection, remove_connection,
}
use irono.TcpServer.Connections.{find}
use irono.TcpServer.Serving.{Inv, Takes, Drops, new_connection-Takes, remove_connection-Drops}

-- `setThreadNum`, `start`, a socket from the acceptor, and a connection's close callback.
pub data Action (L : Type 0) : Type 0 where
  sets_threads : ℕ → Action L
  starts : Bool → List L → Action L
  accepts : ℕ → Call SockAddr → Action L
  closes : Connection L → Action L

module _ {L : Type 0} where
  abbrev pub apply : TcpServer L → Action L → Option (TcpServer L)
  apply s (sets_threads n) = some (set_thread_num s n)
  apply s (starts has_callback spawned) = start s has_callback spawned
  apply s (accepts sockfd local) = new_connection s sockfd local
  apply s (closes conn) = remove_connection s conn

  -- The first `start` gets a loop for each thread; sockets come from a listening acceptor, `getsockname`
  -- gives their address, and the number of the connection is below `INT_MAX`; a close callback comes from a connection of the map.
  abbrev pub Allows : TcpServer L → Action L → Type 0
  Allows s (sets_threads n) = Unit {0}
  Allows s (starts has_callback spawned) = s.started ≡ false → length spawned ≡ (s.pool).num_threads
  Allows s (accepts sockfd local) =
      (s.listenning ≡ true)
      × (s.next_conn_id < int_max)
      × ((addr : SockAddr) × (local ≡ returned addr))
  Allows s (closes conn) = find conn.id s.connections ≡ some conn

  pub data Reach : TcpServer L → Type 0 where
    creates : (loop : L) → Reach (create loop)
    applies :
        (s s' : TcpServer L) (a : Action L) → Reach s → Allows s a → apply s a ≡ some s' → Reach s'

  -- What a functor of the server does to the connection named `n`: it is up, or it is gone.
  abbrev carry_out : ℕ → Option (Connection L) → Dispatch L → Option (Connection L)
  carry_out n c (connect_established conn) = if conn.id == n then some conn else c
  carry_out n c (connect_destroyed conn) = if conn.id == n then none else c

  -- The connection named `n` that the functors leave up, when they are called in the order in which
  -- the server handed them out.
  abbrev pub up_after : ℕ → Option (Connection L) → List (Dispatch L) → Option (Connection L)
  up_after n c [] = c
  up_after n c (d ∷ ds) = up_after n (carry_out n c d) ds

  up_after-append :
      (n : ℕ) (c : Option (Connection L)) (ds : List (Dispatch L)) (d : Dispatch L)
      → up_after n c (ds ++ (d ∷ [])) ≡ carry_out n (up_after n c ds) d
  up_after-append n c [] d = refl
  up_after-append n c (x ∷ ds) d = up_after-append n (carry_out n c x) ds d

  pub record Serves (s : TcpServer L) : Type 0 where
    pub inv : Inv s
    pub pool_started : (s.pool).started ≡ s.started
    pub fresh : s.started ≡ false → (s.pool).next ≡ 0
    pub listens : s.listenning ≡ true → s.started ≡ true
    -- The map holds the connections that are up, under their names.
    pub mirrors : (n : ℕ) → find n s.connections ≡ up_after n none s.dispatched

  create-Serves : (loop : L) → Serves (create loop)
  unfolding create EventLoopThreadPool.create
  create-Serves loop = record {
    inv = record { unique = tt; named = λ n c e. cc; fits = omega arith; ready = inr refl };
    pool_started = refl;
    fresh = λ _. refl;
    listens = λ h. cc;
    mirrors = λ n. refl;
  }

  first : (spawned : List L) → (0 < length spawned) ⊎ (length spawned ≡ 0)
  first [] = inr refl
  first (l ∷ ls) = inl (omega arith)

  start-Serves :
      (s : TcpServer L) (has_callback : Bool) (spawned : List L)
      → Serves s
      → (s.started ≡ false → length spawned ≡ (s.pool).num_threads)
      → Returns (start s has_callback spawned) Serves
  unfolding start EventLoopThreadPool.start
  start-Serves s has_callback spawned v size = elim (Bool-cases s.started) [
    | inl again ↦ rw again (record {
      inv = record {
        unique = v.inv.unique;
        named = v.inv.named;
        fits = v.inv.fits;
        ready = v.inv.ready;
      };
      pool_started = v.pool_started ∙ again;
      fresh = λ h. cc;
      listens = λ _. refl;
      mirrors = v.mirrors;
    })
    | inr once ↦
        let idle : (s.pool).started ≡ false = v.pool_started ∙ once in
        let sized : (length spawned == (s.pool).num_threads) ≡ true = ground (arith, size once) in
        rw (once, idle, sized)
          (record {
            inv = record {
              unique = v.inv.unique;
              named = v.inv.named;
              fits = v.inv.fits;
              ready =
                  subst (λ n. (n < length spawned) ⊎ (length spawned ≡ 0)) (sym (v.fresh once))
                    (first spawned);
            };
            pool_started = refl;
            fresh = λ h. cc;
            listens = λ _. refl;
            mirrors = v.mirrors;
          })
  ]

  set_thread_num-Serves : (s : TcpServer L) (n : ℕ) → Serves s → Serves (set_thread_num s n)
  unfolding set_thread_num EventLoopThreadPool.set_thread_num
  set_thread_num-Serves s n v = record {
    inv = record {
      unique = v.inv.unique;
      named = v.inv.named;
      fits = v.inv.fits;
      ready = v.inv.ready;
    };
    pool_started = v.pool_started;
    fresh = v.fresh;
    listens = v.listens;
    mirrors = v.mirrors;
  }

  Takes-Serves :
      (s s' : TcpServer L) (sockfd : ℕ) (addr : SockAddr)
      → Serves s
      → s.listenning ≡ true
      → Takes s sockfd addr s'
      → Serves s'
  Takes-Serves s s' sockfd addr v listening t =
      let started : s'.started ≡ true = t.still.0 ∙ v.listens listening in
      record {
        inv = t.inv;
        pool_started = t.still.1 ∙ v.pool_started ∙ sym t.still.0;
        fresh = λ h. cc;
        listens = λ _. started;
        mirrors = λ n.
            let e = up_after-append n none s.dispatched (connect_established t.conn) in
            rw (t.map n, t.queued, e, v.mirrors n) refl;
      }

  Drops-Serves : (s s' : TcpServer L) (conn : Connection L) → Serves s → Drops s conn s' → Serves s'
  Drops-Serves s s' conn v d = record {
    inv = d.inv;
    pool_started = ap (λ p. p.started) d.still.2 ∙ v.pool_started ∙ sym d.still.0;
    fresh = λ h. ap (λ p. p.next) d.still.2 ∙ v.fresh (sym d.still.0 ∙ h);
    listens = λ h. d.still.0 ∙ v.listens (sym d.still.1 ∙ h);
    mirrors = λ n.
        let e = up_after-append n none s.dispatched (connect_destroyed conn) in
        rw (d.map n, d.queued, e, v.mirrors n) refl;
  }

  apply-Serves_at :
      (s : TcpServer L) (a : Action L) → Serves s → Allows s a → Returns (apply s a) Serves
  apply-Serves_at s (sets_threads n) v can = set_thread_num-Serves s n v
  apply-Serves_at s (starts has_callback spawned) v can = start-Serves s has_callback spawned v can
  apply-Serves_at s (accepts sockfd local) v (listening, low, (addr, e)) = rw e (
      Returns-mono (new_connection s sockfd (returned addr)) (Takes s sockfd addr) Serves
        (new_connection-Takes s sockfd addr v.inv low)
        (λ s' t. Takes-Serves s s' sockfd addr v listening t))
  apply-Serves_at s (closes conn) v mine =
      Returns-mono (remove_connection s conn) (Drops s conn) Serves
        (remove_connection-Drops s conn v.inv mine) (λ s' d. Drops-Serves s s' conn v d)

  Reach-Serves : (s : TcpServer L) → Reach s → Serves s
  Reach-Serves _ (creates loop) = create-Serves loop
  Reach-Serves s' (applies s _ a r can e) =
      subst (λ m. Returns m Serves) e (apply-Serves_at s a (Reach-Serves s r) can)

  -- Of a server, from its constructor on, each call comes back, when the first `start` gets a loop
  -- for each thread, sockets come from a listening acceptor only, `getsockname` gives the address of
  -- each, the connection's number is below `INT_MAX`, and a close callback comes from a connection of
  -- the map: no assert fails, `nextConnId_` does not overflow, and `getNextLoop` finds a loop.
  -- Afterwards the names of the map are still unique and below the next one, and the map holds, under
  -- each name, just the connection that is up once the functors that the server has handed out are
  -- called in their order.
  pub apply-Serves :
      (s : TcpServer L) (a : Action L) → Reach s → Allows s a → Returns (apply s a) Serves
  apply-Serves s a r can = apply-Serves_at s a (Reach-Serves s r) can
