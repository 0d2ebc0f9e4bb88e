-- ===== src/ChatServer/Schedule.antt =====
-- The interleavings of the I/O threads (irono/example/chat/server_threaded_efficient.cc).
use irono.Base.{ℕ, ◌≡◌, Bool, some, List, ◌∷◌, ◌++◌, length, get_elem?}
use irono.ChatServer.{
  ChatServer, Sender, create, on_connection, get_connection_list, send_one, leave,
}

pub data Step (s : ChatServer) : ChatServer → Type 0 where
  connection : (connected : Bool) (c : ℕ) → Step s (on_connection s connected c)
  begins : Step s (get_connection_list s)
  sends :
      (before : List Sender) (r : Sender) (c : ℕ) (after : List Sender)
      → s.senders ≡ before ++ (r ∷ after)
      → get_elem? (s.lists r.list) r.position ≡ some c
      → Step s (send_one s before r c after)
  leaves :
      (before : List Sender) (r : Sender) (after : List Sender)
      → s.senders ≡ before ++ (r ∷ after)
      → r.position ≡ length (s.lists r.list)
      → Step s (leave s before r after)

pub data Reach : ChatServer → Type 0 where
  here : Reach create
  next : {s s' : ChatServer} → Reach s → Step s s' → Reach s'
