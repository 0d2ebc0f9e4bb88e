-- ===== src/Sockets/Tests.antt =====
-- A C library that knows addresses of one letter, and two connections (irono/net/SocketsOps.cc).
use irono.Base.{ℕ, ◌≡◌, refl, true, Option, none, some, List, [], ◌∷◌, ◌++◌, if◌then◌else◌, arith}
use irono.Acceptor.{Acceptor}
use irono.Channel.{none_event}
use irono.Sockets.{eagain, failed, SockAddr, zeroed, is_expected, inet_address, host_port}
use irono.Sockets.Libc.{CLib}
use irono.Sockets.Accept.{accept_loop, disposed, succeeded, fds, accept_loop_lem}

abbrev read_one : List ℕ → Option ℕ
read_one [] = none
read_one (a ∷ []) = some a
read_one (a ∷ b ∷ rest) = none

abbrev letters : CLib
letters = record {
  ntop = λ a. a ∷ [];
  pton = read_one;
  print_u = λ n. n ∷ [];
  htons = λ n. n;
  ntohs = λ n. n;
  pton-ntop = λ a h. refl;
  length-ntop = λ a h. omega arith;
  length-print_u = λ n h. omega arith;
  ntohs-htons = λ n h. refl;
}

printed : host_port letters (inet_address letters (65 ∷ []) 80) ≡ 65 ∷ b':' ∷ 80 ∷ []
unfolding host_port inet_address
printed = refl

abbrev listening : Acceptor
listening = record { listenning = true; events = none_event; has_callback = true }

abbrev clients : List (ℕ × SockAddr)
clients = (8, zeroed) ∷ (20000, zeroed) ∷ []

accept_loop_lem_example :
    accept_loop listening zeroed (succeeded clients ++ (failed eagain ∷ []))
    ≡ (if is_expected eagain then some (disposed listening (fds clients)) else none)
accept_loop_lem_example =
    accept_loop_lem listening zeroed clients eagain [] (omega arith, (omega arith, tt))
