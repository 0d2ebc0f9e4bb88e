-- ===== src/ChatRoom/Tests.antt =====
-- A message to one connection, and a line from a client (irono/example/chat).
use irono.Base.{
  ℕ, ◌≤◌, ◌≡◌, refl, true, false, Option, none, some, List, [], ◌∷◌, ◌++◌, length, drop, replicate,
  arith, Returns,
}
use irono.Buffer
use irono.Buffer.{Buffer}
use irono.Buffer.Inv.{IsValid}
use irono.Codec.{Handled, on_message, encode, to_be32}
use irono.Codec.Receive.{Receives}
use irono.ChatServer.{insert}
use irono.ChatRoom.{ChatRoom, create, on_connection, on_string_message, send, send_all}
use irono.ChatRoom.Talk.{set_connected, Reach, begins, goes_on, comes_up, says}
use irono.ChatRoom.Delivery.{delivers_messages}
use irono.ChatRoom.Client
use irono.ChatRoom.Client.{ChatClient, connects, reads}
use irono.ChatRoom.Lines.{lines_lem}

abbrev message : List ℕ
message = 1 ∷ 2 ∷ []

abbrev room_of : Option ChatRoom → ChatRoom
room_of none = create
room_of (some s) = s

abbrev room : ChatRoom
room = room_of (on_string_message (on_connection (set_connected create 7 true) true 7) message)

room_reached : Reach room
unfolding create on_connection on_string_message send_all send insert encode Buffer.append
    Buffer.ensure_writable_bytes Buffer.create Buffer.prepend to_be32 Buffer.has_written
room_reached = goes_on (goes_on begins (comes_up 7 refl)) (says message room (omega arith) refl)

abbrev arrived : Buffer
arrived = record {
  buffer = replicate 8 0 ++ (0 ∷ 0 ∷ 0 ∷ 2 ∷ 1 ∷ 2 ∷ []);
  reader_index = 8;
  writer_index = 14;
}

arrived-IsValid : IsValid arrived
arrived-IsValid = omega arith

delivers_messages_example :
    ((m : List ℕ) → length m ≤ 65536 → Returns (on_string_message room m) (λ _. Unit {0}))
    × ((h : Handled) × (on_message arrived ≡ some h)
        × Receives (drop (room.joined 7) room.messages) false [] h)
unfolding create on_connection on_string_message send_all send insert encode Buffer.append
    Buffer.ensure_writable_bytes Buffer.create Buffer.prepend to_be32 Buffer.has_written
delivers_messages_example =
    delivers_messages room 7 arrived room_reached refl refl arrived-IsValid refl

abbrev client_of : Option ChatClient → ChatClient
client_of none = Client.create
client_of (some k) = k

abbrev client : ChatClient
client =
    client_of (
      Client.write (Client.on_connection (Client.set_connected Client.create 3 true) true 3)
        message)

client_reached : Client.Reach client
unfolding Client.create Client.on_connection Client.write send encode Buffer.append
    Buffer.ensure_writable_bytes Buffer.create Buffer.prepend to_be32 Buffer.has_written
client_reached =
    Client.goes_on (Client.goes_on Client.begins (connects true 3))
      (reads message client (omega arith) refl)

lines_lem_example :
    ((line : List ℕ) → length line ≤ 65536 → Returns (Client.write client line) (λ _. Unit {0}))
    × ((h : Handled) × (on_message arrived ≡ some h) × Receives (client.lines 3) false [] h)
unfolding Client.create Client.on_connection Client.write send encode Buffer.append
    Buffer.ensure_writable_bytes Buffer.create Buffer.prepend to_be32 Buffer.has_written
lines_lem_example = lines_lem client 3 arrived client_reached arrived-IsValid refl
