-- ===== src/ChatServer.antt =====
-- The chat server whose threads share one set of connections by copy-on-write
-- (irono/example/chat/server_threaded_efficient.cc).
pub mod Connections
pub mod Schedule
pub mod Inv
pub mod Delivery
mod Tests
use irono.Base.{ℕ, ◌+◌, Bool, true, false, List, [], ◌∷◌, ◌++◌, ltb, ◌==◌, if◌then◌else◌, update}

-- A `std::set`, in order; a connection is a number.
unfoldable pub insert : ℕ → List ℕ → List ℕ
insert c [] = c ∷ []
insert c (d ∷ ds) = if c == d then d ∷ ds else (if ltb c d then c ∷ d ∷ ds else d ∷ insert c ds)

unfoldable pub erase : ℕ → List ℕ → List ℕ
erase c [] = []
erase c (d ∷ ds) = if c == d then erase c ds else d ∷ erase c ds

-- A thread in the loop of `onStringMessage`: the list that it holds, its iterator, and the connections
-- that it has sent to. `at_start` is what the list was when the thread took it.
pub record Sender : Type 0 where
  pub list : ℕ
  pub position : ℕ
  pub sent : List ℕ
  pub at_start : List ℕ

-- `lists` is the heap, `connections` the address of the shared list, and `next` the first address that
-- is not in use. `done` are the threads that have left the loop.
pub record ChatServer : Type 0 where
  pub lists : ℕ → List ℕ
  pub connections : ℕ
  pub next : ℕ
  pub senders : List Sender
  pub done : List Sender

unfoldable pub create : ChatServer
create = record { lists = λ a. []; connections = 0; next = 1; senders = []; done = [] }

-- `unique()`: no thread holds the shared list beside the server itself.
abbrev pub none_holds : ℕ → List Sender → Bool
none_holds a [] = true
none_holds a (r ∷ rs) = if r.list == a then false else none_holds a rs

unfoldable pub copy_on_write : ChatServer → ChatServer
copy_on_write s = if none_holds s.connections s.senders then s else record s {
  lists = update s.lists s.next (s.lists s.connections);
  connections = s.next;
  next = s.next + 1;
}

-- `onConnection`, under the lock.
unfoldable pub on_connection : ChatServer → Bool → ℕ → ChatServer
unfolding copy_on_write insert erase
on_connection s connected c =
    let s' = copy_on_write s in
    let list = s'.lists s'.connections in
    record s' {
      lists = update s'.lists s'.connections (if connected then insert c list else erase c list);
    }

-- `getConnectionList`, under the lock, and the begin of the loop.
unfoldable pub get_connection_list : ChatServer → ChatServer
get_connection_list s = record s {
  senders =
      record { list = s.connections; position = 0; sent = []; at_start = s.lists s.connections }
      ∷ s.senders;
}

-- One turn of the loop, by the thread `r` among the others.
unfoldable pub send_one : ChatServer → List Sender → Sender → ℕ → List Sender → ChatServer
send_one s before r c after = record s {
  senders = before ++ (record r { position = r.position + 1; sent = r.sent ++ (c ∷ []) } ∷ after);
}

-- The iterator is at the end, and the thread lets go of its list.
unfoldable pub leave : ChatServer → List Sender → Sender → List Sender → ChatServer
leave s before r after = record s { senders = before ++ after; done = r ∷ s.done }
