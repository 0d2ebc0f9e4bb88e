-- ===== src/PingPong/Start.antt =====
-- The client that the constructor makes (irono/example/pingpong/client.cc).
use irono.Base.{
  ℕ, zero, suc, ◌+◌, ◌%◌, ◌<◌, ◌≡◌, refl, ap, sym, subst, false, some, List, [], ◌∷◌, length,
  get_elem?, get_elem?-append, length-append, ltb, arith, some-bind, if◌then◌else◌,
}
use irono.EventLoopThreadPool
use irono.Connector.{Errno, NewSocket}
use irono.TcpClient
use irono.PingPong.{Client, block, new_session, start_sessions, create}

pub length-block : (n : ℕ) → length (block n) ≡ n
unfolding block
length-block zero = refl
length-block (suc n) = omega (arith, length-append (block n) (n % 128 ∷ []), length-block n)

-- The characters of the message run from 0 to 127, over and over.
pub get_elem?-block : (n k : ℕ) → k < n → get_elem? (block n) k ≡ some (k % 128)
unfolding block
get_elem?-block zero k h = absurd (omega arith)
get_elem?-block (suc n) k h =
    ground (arith, get_elem?-append (block n) (n % 128) k, length-block n, get_elem?-block n k)

module _ {L : Type 0} where
  -- Nothing has been read, nobody is connected, and nothing was printed.
  pub record Fresh (c : Client L) : Type 0 where
    pub unread : (i : ℕ) → (c.sessions i).bytes_read ≡ 0
    pub no_messages : (i : ℕ) → (c.sessions i).messages_read ≡ 0
    pub none_up : c.num_connected ≡ 0
    pub no_reports : c.reports ≡ []
    pub made : c.message ≡ block (length c.message)

  -- `c'` has `n` more sessions than `c`.
  pub record Grown (n : ℕ) (c c' : Client L) : Type 0 where
    pub fresh : Fresh c'
    pub same_count : c'.session_count ≡ c.session_count
    pub size : c'.size ≡ c.size + n
    pub same_message : c'.message ≡ c.message

  start_sessions-Grown :
      (n : ℕ) (attempts : ℕ → NewSocket × Errno) (c c' : Client L)
      → Fresh c
      → start_sessions n attempts c ≡ some c'
      → Grown n c c'
  unfolding start_sessions new_session
  start_sessions-Grown zero attempts c c' f e =
      let same : c ≡ c' = cc in
      subst (Grown zero c) same
        (record { fresh = f; same_count = refl; size = omega arith; same_message = refl })
  start_sessions-Grown (suc n) attempts c c' f e =
      let (r, dealt, e') = some-bind (EventLoopThreadPool.get_next_loop c.thread_pool) _ c' e in
      let (client, began, e'') =
        some-bind (TcpClient.start TcpClient.create (attempts c.size).0 (attempts c.size).1) _ c'
          e' in
      let g =
        start_sessions-Grown n attempts _ c'
          (record {
            unread = λ i. ground (arith, f.unread i);
            no_messages = λ i. ground (arith, f.no_messages i);
            none_up = f.none_up;
            no_reports = f.no_reports;
            made = f.made;
          })
          e'' in
      record {
        fresh = g.fresh;
        same_count = g.same_count;
        size = omega (arith, g.size);
        same_message = g.same_message;
      }

  -- What the constructor leaves: all sessions, which have read nothing, and the message.
  pub create-Fresh :
      (loop : L) (block_size session_count thread_count : ℕ) (spawned : List L)
      (attempts : ℕ → NewSocket × Errno) (c : Client L)
      → create loop block_size session_count thread_count spawned attempts ≡ some c
      → Fresh c × (c.size ≡ c.session_count)
  unfolding create new_session
  create-Fresh loop block_size session_count thread_count spawned attempts c e =
      let pool = EventLoopThreadPool.create loop in
      let sized =
        if ltb 1 thread_count then EventLoopThreadPool.set_thread_num pool thread_count else pool in
      let (started, ran, e') = some-bind (EventLoopThreadPool.start sized false spawned) _ c e in
      let g =
        start_sessions-Grown session_count attempts _ c
          (record {
            unread = λ i. refl;
            no_messages = λ i. refl;
            none_up = refl;
            no_reports = refl;
            made = ap block (sym (length-block block_size));
          })
          e' in
      (g.fresh, omega (arith, g.size, g.same_count))
