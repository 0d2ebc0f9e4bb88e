-- ===== src/Acceptor/Tests.antt =====
-- Three accepted sockets, one of them above the limit (irono/net/Acceptor.cc).
use irono.Base.{ℕ, ◌≡◌, refl, true, List, [], ◌∷◌}
use irono.Channel.{none_event}
use irono.Acceptor.{Acceptor, handle_read, dispose}

abbrev listening : Acceptor
listening = record { listenning = true; events = none_event; has_callback = true }

abbrev sockets : List ℕ
sockets = 5 ∷ 20000 ∷ 6 ∷ []

lost : handle_read listening sockets ≡ record { handed = 5 ∷ 6 ∷ []; closed = [] }
unfolding handle_read dispose
lost = refl
