-- ===== src/ChatRelay/Schedule.antt =====
-- The interleavings of the I/O threads (irono/example/chat/server_threaded_highperformance.cc).
use irono.Base.{ℕ, ◌≡◌, true, false, none, some, List, ◌∷◌}
use irono.ChatRelay.{
  ChatRelay, create, thread_init, on_connection, on_string_message, distribute_message,
}

-- A connection comes up once, in one thread.
pub data Step (s : ChatRelay) : ChatRelay → Type 0 where
  registers : {s' : ChatRelay} (l : ℕ) → thread_init s l ≡ some s' → Step s s'
  comes_up : (l c : ℕ) → s.home c ≡ none → Step s (on_connection s l true c)
  goes_down : (l c : ℕ) → s.home c ≡ some l → Step s (on_connection s l false c)
  says : (m : ℕ) → Step s (on_string_message s m)
  distributes :
      (l m : ℕ) (rest : List ℕ) → s.pending l ≡ m ∷ rest → Step s (distribute_message s l m rest)

pub data Reach : ChatRelay → Type 0 where
  here : Reach create
  next : {s s' : ChatRelay} → Reach s → Step s s' → Reach s'
