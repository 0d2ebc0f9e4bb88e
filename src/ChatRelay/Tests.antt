-- ===== src/ChatRelay/Tests.antt =====
-- Two threads with a connection each, and a message that one of them has passed on.
use irono.Base.{ℕ, ◌≡◌, refl, true, none, some, Option, [], ◌∷◌, ◌++◌, drop}
use irono.ChatServer.{insert}
use irono.ChatServer.Connections.{mem}
use irono.ChatRelay.{
  ChatRelay, create, thread_init, on_connection, on_string_message, distribute_message, instance_of,
}
use irono.ChatRelay.Schedule.{Reach, here, next, registers, comes_up, says, distributes}
use irono.ChatRelay.Inv.{relayed_in_order}

abbrev ready : Option ChatRelay → ChatRelay
ready none = create
ready (some s) = s

abbrev one : ChatRelay
one = ready (thread_init create 1)

abbrev two : ChatRelay
two = ready (thread_init one 2)

abbrev talking : ChatRelay
talking = on_string_message (on_connection (on_connection two 1 true 7) 2 true 8) 5

abbrev passed : ChatRelay
passed = distribute_message talking 2 5 []

reached : Reach passed
unfolding create thread_init on_connection on_string_message insert
reached =
    next
      (next
        (next (next (next (next here (registers 1 refl)) (registers 2 refl)) (comes_up 1 7 refl))
          (comes_up 2 8 refl))
        (says 5))
      (distributes 2 5 [] refl)

relayed_in_order_example :
    ((l : ℕ)
      → mem l passed.loops ≡ true
      → drop (passed.since l) passed.messages ≡ passed.distributed l ++ passed.pending l)
    × ((l c : ℕ)
        → mem c (instance_of (passed.local l)) ≡ true
        → (passed.received c ≡ drop (passed.joined c) (passed.distributed l))
          × ((k : ℕ) → mem c (instance_of (passed.local k)) ≡ true → k ≡ l))
relayed_in_order_example = relayed_in_order passed reached

received_once : passed.received 8 ≡ 5 ∷ []
unfolding create thread_init on_connection on_string_message distribute_message insert
received_once = refl
