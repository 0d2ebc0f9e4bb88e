-- ===== src/ChatRelay.antt =====
-- The chat server whose threads keep their own connections and pass messages on through their loops
-- (irono/example/chat/server_threaded_highperformance.cc, irono/others/ThreadLocalSingleton.h).
pub mod Sets
pub mod Schedule
pub mod Inv
mod Tests
use irono.Base.{
  ℕ, ◌+◌, Bool, true, false, Option, none, some, List, [], ◌∷◌, ◌++◌, length, if◌then◌else◌, assert,
  ◌>>=◌, ◌>>◌, update,
}
use irono.ChatServer.{insert, erase}

-- A loop stands for its thread too. `local` are the thread-local sets, `none` where there is no
-- object yet, `pending` the functors of `distributeMessage` in each loop's queue, by their
-- messages, and `received` what was sent to each connection. The rest is kept for the statements:
-- all messages in the order in which they came, how many had come when a loop was registered, what
-- each loop has distributed, the loop of each connection, and how much that loop had distributed
-- when the connection came up.
pub record ChatRelay : Type 0 where
  pub loops : List ℕ
  pub local : ℕ → Option (List ℕ)
  pub pending : ℕ → List ℕ
  pub received : ℕ → List ℕ
  pub messages : List ℕ
  pub since : ℕ → ℕ
  pub distributed : ℕ → List ℕ
  pub home : ℕ → Option ℕ
  pub joined : ℕ → ℕ

unfoldable pub create : ChatRelay
create = record {
  loops = [];
  local = λ l. none;
  pending = λ l. [];
  received = λ c. [];
  messages = [];
  since = λ l. 0;
  distributed = λ l. [];
  home = λ c. none;
  joined = λ c. 0;
}

-- `ThreadLocalSingleton::instance`: the object, which is made when there is none.
abbrev pub instance_of : Option (List ℕ) → List ℕ
instance_of none = []
instance_of (some list) = list

-- `pointer() == NULL`.
abbrev pub is_null : Option (List ℕ) → Bool
is_null none = true
is_null (some list) = false

-- `threadInit`, in the thread of the new loop.
unfoldable pub thread_init : ChatRelay → ℕ → Option ChatRelay
unfolding insert
thread_init s l = do
  assert (is_null (s.local l))
  some (record s {
    local = update s.local l (some []);
    loops = insert l s.loops;
    since = update s.since l (length s.messages);
  })

-- `onConnection`, in the thread of `l`.
unfoldable pub on_connection : ChatRelay → ℕ → Bool → ℕ → ChatRelay
unfolding insert erase
on_connection s l connected c =
    let list = instance_of (s.local l) in
    if connected
    then record s {
      local = update s.local l (some (insert c list));
      home = update s.home c (some l);
      joined = update s.joined c (length (s.distributed l));
    }
    else record s { local = update s.local l (some (erase c list)) }

-- One element more for each of the keys, one after the other.
abbrev pub push_all : List ℕ → ℕ → (ℕ → List ℕ) → ℕ → List ℕ
push_all [] m f = f
push_all (k ∷ ks) m f = push_all ks m (update f k (f k ++ (m ∷ [])))

-- `onStringMessage`, under the lock: a functor for each loop.
unfoldable pub on_string_message : ChatRelay → ℕ → ChatRelay
on_string_message s m = record s {
  pending = push_all s.loops m s.pending;
  messages = s.messages ++ (m ∷ []);
}

-- `distributeMessage`: the thread of `l` takes the first functor, and sends to its connections.
unfoldable pub distribute_message : ChatRelay → ℕ → ℕ → List ℕ → ChatRelay
distribute_message s l m rest = record s {
  local = update s.local l (some (instance_of (s.local l)));
  pending = update s.pending l rest;
  received = push_all (instance_of (s.local l)) m s.received;
  distributed = update s.distributed l (s.distributed l ++ (m ∷ []));
}
