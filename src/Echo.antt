-- ===== src/Echo.antt =====
-- The echo server that shuts idle connections by a timing wheel (irono/example/echo/echo.h and
-- echo.cc).
pub mod Wheel
pub mod Counter
pub mod Idle
pub mod Timeout
mod Tests
use irono.Base.{
  ℕ, ◌-◌, ◌+◌, Bool, true, false, not, ◌&&◌, ◌||◌, Option, none, some, List, [], ◌∷◌, ◌++◌, length,
  get_elem?, take, replicate, ◌==◌, if◌then◌else◌, assert, ◌>>=◌, ◌>>◌, update,
}

-- A bucket is a set of entries. A connection has one entry, made when it comes up, and the connection's
-- number stands for both.
abbrev pub mem : ℕ → List ℕ → Bool
mem c [] = false
mem c (d ∷ ds) = c == d || mem c ds

abbrev pub insert : ℕ → List ℕ → List ℕ
insert c bucket = if mem c bucket then bucket else c ∷ bucket

-- The `shared_ptr`s to an entry are those in the buckets.
abbrev pub is_held : ℕ → List (List ℕ) → Bool
is_held c [] = false
is_held c (b ∷ bs) = mem c b || is_held c bs

-- `buckets` has the newest first. `has_context` are the connections that came up, `alive` those whose
-- object still exists, `shut` those on which `shutdown` was called, and `sent` is what was sent.
pub record EchoServer : Type 0 where
  pub buckets : List (List ℕ)
  pub has_context : ℕ → Bool
  pub alive : ℕ → Bool
  pub shut : ℕ → Bool
  pub sent : List (ℕ × List ℕ)

unfoldable pub create : ℕ → EchoServer
create bucket_size = record {
  buckets = replicate bucket_size [];
  has_context = λ c. false;
  alive = λ c. false;
  shut = λ c. false;
  sent = [];
}

abbrev pub total : List (List ℕ) → ℕ
total [] = 0
total (b ∷ bs) = length b + total bs

unfoldable pub size : EchoServer → ℕ
size s = total s.buckets

-- `begin()` of a wheel with no bucket is not a bucket.
unfoldable pub insert_front : List (List ℕ) → ℕ → Option (List (List ℕ))
insert_front [] c = none
insert_front (b ∷ bs) c = some (insert c b ∷ bs)

-- `onConnection`, of a connection that is up.
unfoldable pub connection_up : EchoServer → ℕ → Option EchoServer
unfolding insert_front
connection_up s c = do
  buckets ← insert_front s.buckets c
  some (record s {
    buckets = buckets;
    has_context = update s.has_context c true;
    alive = update s.alive c true;
  })

-- `onConnection`, of a connection that is down.
unfoldable pub connection_down : EchoServer → ℕ → Option EchoServer
connection_down s c = do assert (s.has_context c); some s

unfoldable pub on_message : EchoServer → ℕ → List ℕ → Option EchoServer
unfolding insert_front
on_message s c msg = do
  let echoed = record s { sent = s.sent ++ ((c, msg) ∷ []) }
  assert (s.has_context c)
  buckets ← if is_held c s.buckets then insert_front s.buckets c else some s.buckets
  some (record echoed { buckets = buckets })

-- The bucket popped at the end held some of the entries alone: they are destroyed, and `~Entry` shuts
-- the connection if there still is one.
unfoldable pub destroy_entries : EchoServer → List ℕ → List (List ℕ) → ℕ → Bool
destroy_entries s popped left c = s.shut c || (mem c popped && (not (is_held c left) && s.alive c))

-- `onTimer`.
unfoldable pub tick : EchoServer → Option EchoServer
unfolding destroy_entries
tick s = do
  popped ← get_elem? s.buckets (length s.buckets - 1)
  let left = take (length s.buckets - 1) s.buckets
  some (record s { buckets = [] ∷ left; shut = destroy_entries s popped left })
