-- ===== src/ChatRoom.antt =====
-- The chat with one set of connections (irono/example/chat/server.cc), whose handlers all run in one
-- loop, and its client (client.cc), over the codec.
pub mod Client
pub mod Talk
pub mod Delivery
pub mod Lines
mod Tests
use irono.Base.{
  ℕ, Bool, true, false, Option, none, some, List, [], ◌∷◌, ◌++◌, length, if◌then◌else◌, ◌>>=◌,
  update,
}
use irono.Buffer.Inv.{content}
use irono.Codec.{encode}
use irono.ChatServer.{insert, erase}

-- `sent` are the bytes that each connection took on; `is_connected` says of each whether its state is
-- `kConnected`. Kept for the statements: all
-- messages in the order in which they came, whether a connection has come up, and how many messages had
-- come then.
pub record ChatRoom : Type 0 where
  pub connections : List ℕ
  pub sent : ℕ → List ℕ
  pub is_connected : ℕ → Bool
  pub messages : List (List ℕ)
  pub seen : ℕ → Bool
  pub joined : ℕ → ℕ

unfoldable pub create : ChatRoom
create = record {
  connections = [];
  sent = λ c. [];
  is_connected = λ c. false;
  messages = [];
  seen = λ c. false;
  joined = λ c. 0;
}

-- `onConnection`.
unfoldable pub on_connection : ChatRoom → Bool → ℕ → ChatRoom
on_connection s true c = record s {
  connections = insert c s.connections;
  seen = update s.seen c true;
  joined = update s.joined c (length s.messages);
}
on_connection s false c = record s { connections = erase c s.connections }

-- `codec_.send`: a connection that is not `kConnected` takes nothing on.
unfoldable pub send : (ℕ → Bool) → (ℕ → List ℕ) → ℕ → List ℕ → Option (ℕ → List ℕ)
send is_connected sent c message = encode message >>= λ b.
    some (if is_connected c then update sent c (sent c ++ content b) else sent)

-- The loop of `onStringMessage`.
unfoldable pub send_all : (ℕ → Bool) → List ℕ → List ℕ → (ℕ → List ℕ) → Option (ℕ → List ℕ)
send_all is_connected [] message sent = some sent
send_all is_connected (c ∷ cs) message sent =
    send is_connected sent c message >>= λ sent'. send_all is_connected cs message sent'

-- `onStringMessage`.
unfoldable pub on_string_message : ChatRoom → List ℕ → Option ChatRoom
on_string_message s message = send_all s.is_connected s.connections message s.sent >>= λ sent.
    some (record s { sent = sent; messages = s.messages ++ (message ∷ []) })
