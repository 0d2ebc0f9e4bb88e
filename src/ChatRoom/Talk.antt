-- ===== src/ChatRoom/Talk.antt =====
-- The steps of the server (irono/example/chat/server.cc), all in its one loop.
use irono.Base.{Bool, update, ℕ, ◌≤◌, ◌≡◌, true, false, some, List, length}
use irono.ChatServer.Connections.{mem}
use irono.ChatRoom.{ChatRoom, create, on_connection, on_string_message}

abbrev pub set_connected : ChatRoom → ℕ → Bool → ChatRoom
set_connected s c b = record s { is_connected = update s.is_connected c b }

-- A connection comes up once, in the state `kConnected`. The codec shuts it down after a header out of
-- range, and later, or at once, it goes down. A message that was received has at most 65536 bytes.
pub data Step (s : ChatRoom) : ChatRoom → Type 0 where
  comes_up : (c : ℕ) → s.seen c ≡ false → Step s (on_connection (set_connected s c true) true c)
  goes_down :
      (c : ℕ)
      → mem c s.connections ≡ true
      → Step s (on_connection (set_connected s c false) false c)
  shuts : (c : ℕ) → Step s (set_connected s c false)
  says :
      (m : List ℕ) (s' : ChatRoom) → length m ≤ 65536 → on_string_message s m ≡ some s' → Step s s'

pub data Reach : ChatRoom → Type 0 where
  begins : Reach create
  goes_on : {s s' : ChatRoom} → Reach s → Step s s' → Reach s'
