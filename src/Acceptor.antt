-- ===== src/Acceptor.antt =====
-- The listening side of irono/net/Acceptor.h and Acceptor.cc.
mod Tests
use irono.Base.{
  ℕ, zero, suc, ◌<◌, ◌≤◌, ◌≡◌, refl, ap, ◌∙◌, Bool, true, false, List, [], ◌∷◌, ◌++◌, ltb, arith,
  if◌then◌else◌,
}
use irono.Channel.{Events, change_events, enable_reading}

-- `kMaxConnections`.
abbrev pub max_connections : ℕ
max_connections = 20000

pub record Acceptor : Type 0 where
  pub listenning : Bool
  pub events : Events
  pub has_callback : Bool

unfoldable pub listen : Acceptor → Acceptor
listen a = record a { listenning = true; events = change_events enable_reading a.events }

-- What became of the accepted sockets: given to the callback, or closed.
pub record Accepted : Type 0 where
  pub handed : List ℕ
  pub closed : List ℕ

-- One turn of the loop. The `else` of the source belongs to the inner `if`.
unfoldable pub dispose : Bool → ℕ → Accepted → Accepted
dispose has_callback connfd r =
    if ltb connfd max_connections
    then (if has_callback
        then record r { handed = connfd ∷ r.handed }
        else record r { closed = connfd ∷ r.closed })
    else r

-- `handleRead`, given what `accept` returns one after the other: descriptors, and then -1, the end of
-- the list. A descriptor 0 also ends the loop.
unfoldable pub handle_read : Acceptor → List ℕ → Accepted
handle_read a [] = record { handed = []; closed = [] }
handle_read a (zero ∷ fds) = record { handed = []; closed = [] }
handle_read a (suc fd ∷ fds) = dispose a.has_callback (suc fd) (handle_read a fds)

-- The accepted sockets: those before the loop ends.
abbrev pub accepted : List ℕ → List ℕ
accepted [] = []
accepted (zero ∷ fds) = []
accepted (suc fd ∷ fds) = suc fd ∷ accepted fds

abbrev pub below_limit : List ℕ → List ℕ
below_limit [] = []
below_limit (fd ∷ fds) = if ltb fd max_connections then fd ∷ below_limit fds else below_limit fds

-- Of the sockets accepted before the loop ends, exactly those below the limit are handed over, if
-- there is a callback, or closed, if there is none. A socket at the limit or above it is neither:
-- it stays open with no owner.
pub handle_read_lem :
    (a : Acceptor) (fds : List ℕ)
    → let r = handle_read a fds in
      (r.handed ≡ (if a.has_callback then below_limit (accepted fds) else []))
      × (r.closed ≡ (if a.has_callback then [] else below_limit (accepted fds)))
unfolding handle_read dispose
handle_read_lem a [] = ground arith
handle_read_lem a (zero ∷ fds) = ground arith
handle_read_lem a (suc fd ∷ fds) = ground (arith, handle_read_lem a fds)
