-- ===== src/ChatRoom/Client.antt =====
-- The client of the chat (irono/example/chat/client.cc).
use irono.Base.{
  ℕ, ◌≤◌, ◌≡◌, Bool, true, false, Option, none, some, List, [], ◌∷◌, ◌++◌, length, if◌then◌else◌,
  ◌>>=◌, update,
}
use irono.ChatRoom.{send}

-- `connection` is a pointer that may be null. `sent` are the bytes that each connection took
-- on, and `is_connected` says whether its state is `kConnected`; `lines`,
-- kept for the statements, are the lines that went to it.
pub record ChatClient : Type 0 where
  pub connection : Option ℕ
  pub sent : ℕ → List ℕ
  pub is_connected : ℕ → Bool
  pub lines : ℕ → List (List ℕ)

unfoldable pub create : ChatClient
create = record { connection = none; sent = λ c. []; is_connected = λ c. false; lines = λ c. [] }

-- `onConnection`, under the lock.
unfoldable pub on_connection : ChatClient → Bool → ℕ → ChatClient
on_connection k true c = record k { connection = some c }
on_connection k false c = record k { connection = none }

abbrev pub write_to : ChatClient → Option ℕ → List ℕ → Option ChatClient
write_to k none line = some k
write_to k (some c) line = send k.is_connected k.sent c line >>= λ sent. some (record k {
  sent = sent;
  lines = if k.is_connected c then update k.lines c (k.lines c ++ (line ∷ [])) else k.lines;
})

-- `write`, under the lock.
unfoldable pub write : ChatClient → List ℕ → Option ChatClient
write k line = write_to k k.connection line

abbrev pub set_connected : ChatClient → ℕ → Bool → ChatClient
set_connected k c b = record k { is_connected = update k.is_connected c b }

-- The steps of the client: its connection comes up or goes, which its state tells before the handler has
-- the lock; it may be shut down; and lines of at most 65536 bytes are read
-- from the input.
pub data Step (k : ChatClient) : ChatClient → Type 0 where
  connects : (up : Bool) (c : ℕ) → Step k (on_connection (set_connected k c up) up c)
  closes : (c : ℕ) → Step k (set_connected k c false)
  reads :
      (line : List ℕ) (k' : ChatClient) → length line ≤ 65536 → write k line ≡ some k' → Step k k'

pub data Reach : ChatClient → Type 0 where
  begins : Reach create
  goes_on : {k k' : ChatClient} → Reach k → Step k k' → Reach k'
