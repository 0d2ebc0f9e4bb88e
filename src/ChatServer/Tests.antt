-- ===== src/ChatServer/Tests.antt =====
-- A connection goes while a message is on its way (irono/example/chat/server_threaded_efficient.cc).
use irono.Base.{refl, true, false, [], ◌∷◌}
use irono.ChatServer.{
  ChatServer, Sender, create, insert, erase, copy_on_write, on_connection, get_connection_list,
  send_one, leave,
}
use irono.ChatServer.Schedule.{Reach, here, next, connection, begins, sends, leaves}
use irono.ChatServer.Inv.{All, IsComplete}
use irono.ChatServer.Delivery.{IsSending, delivered_to_all}

abbrev with_one : ChatServer
with_one = on_connection create true 4

abbrev sending : ChatServer
sending = get_connection_list with_one

reached : Reach sending
reached = next (next here (connection true 4)) begins

gone_meanwhile : Reach (on_connection sending false 4)
gone_meanwhile = next reached (connection false 4)

abbrev first : Sender
first = record { list = 0; position = 0; sent = []; at_start = 4 ∷ [] }

abbrev last : Sender
last = record first { position = 1; sent = 4 ∷ [] }

abbrev finished : ChatServer
finished = leave (send_one (on_connection sending false 4) [] first 4 []) [] last []

completed : Reach finished
unfolding create insert erase copy_on_write on_connection get_connection_list send_one leave
completed = next (next gone_meanwhile (sends [] first 4 [] refl refl)) (leaves [] last [] refl refl)

delivered_to_all_example : All IsComplete finished.done × All (IsSending finished) finished.senders
delivered_to_all_example = delivered_to_all finished completed
