-- ===== src/Sockets/Accept.antt =====
-- The accept loop of the acceptor over the calls of accept(2) (irono/net/Acceptor.cc, Socket.cc and
-- SocketsOps.cc).
use irono.Base.{
  ℕ, zero, suc, ◌<◌, ◌≡◌, refl, ap, ap₂, ◌∙◌, Option, none, some, List, [], ◌∷◌, ◌++◌,
  if◌then◌else◌, arith, Bool-cases, inl, inr, pos, negsuc, ◌>>=◌,
}
use irono.Sockets.{Errno, Call, returned, failed, SockAddr, accept, socket_accept, is_expected}
use irono.Acceptor.{
  Acceptor, Accepted, dispose, handle_read, handle_read_lem, accepted, below_limit,
}

-- `handleRead` with the system calls that its loop makes, one after the other. The list is long enough
-- for the loop when it has a failed call.
unfoldable pub accept_loop : Acceptor → SockAddr → List (Call (ℕ × SockAddr)) → Option Accepted
accept_loop a peeraddr [] = none
accept_loop a peeraddr (call ∷ calls) = socket_accept peeraddr call >>= λ r.
    let rest = accept_loop a (r.1) calls in
    elim (r.0) [
      | pos zero ↦ some (record { handed = []; closed = [] })
      | pos (suc fd) ↦ rest >>= λ done. some (dispose a.has_callback (suc fd) done)
      | negsuc n ↦ some (record { handed = []; closed = [] })
    ]

-- The descriptors of the calls that succeeded, each with the address of its peer.
abbrev pub succeeded : List (ℕ × SockAddr) → List (Call (ℕ × SockAddr))
succeeded [] = []
succeeded (c ∷ cs) = returned c ∷ succeeded cs

abbrev pub fds : List (ℕ × SockAddr) → List ℕ
fds [] = []
fds (c ∷ cs) = c.0 ∷ fds cs

abbrev pub AllPositive : List (ℕ × SockAddr) → Type 0
AllPositive [] = Unit {0}
AllPositive (c ∷ cs) = (0 < c.0) × AllPositive cs

accept_loop-handle_read :
    (a : Acceptor) (peeraddr : SockAddr) (cs : List (ℕ × SockAddr)) (e : Errno)
    (later : List (Call (ℕ × SockAddr)))
    → AllPositive cs
    → accept_loop a peeraddr (succeeded cs ++ (failed e ∷ later))
      ≡ (if is_expected e then some (handle_read a (fds cs)) else none)
unfolding accept_loop socket_accept accept handle_read
accept_loop-handle_read a peeraddr [] e later h = elim (Bool-cases (is_expected e)) [
  | inl q ↦ rw q refl
  | inr q ↦ rw q refl
]
accept_loop-handle_read a peeraddr ((zero, peer) ∷ cs) e later (h, hs) = absurd (omega arith)
accept_loop-handle_read a peeraddr ((suc fd, peer) ∷ cs) e later (h, hs) =
    elim (Bool-cases (is_expected e)) [
      | inl q ↦ rw (accept_loop-handle_read a peer cs e later hs, q) refl
      | inr q ↦ rw (accept_loop-handle_read a peer cs e later hs, q) refl
    ]

accepted-fds : (cs : List (ℕ × SockAddr)) → AllPositive cs → accepted (fds cs) ≡ fds cs
accepted-fds [] h = refl
accepted-fds ((zero, peer) ∷ cs) (h, hs) = absurd (omega arith)
accepted-fds ((suc fd, peer) ∷ cs) (h, hs) = ap (◌∷◌ (suc fd)) (accepted-fds cs hs)

-- The sockets below the limit go to the callback, or are closed when there is none.
abbrev pub disposed : Acceptor → List ℕ → Accepted
disposed a sockets = record {
  handed = if a.has_callback then below_limit sockets else [];
  closed = if a.has_callback then [] else below_limit sockets;
}

handle_read-disposed :
    (a : Acceptor) (sockets : List ℕ) → handle_read a sockets ≡ disposed a (accepted sockets)
handle_read-disposed a sockets =
    let (handed, closed) = handle_read_lem a sockets in
    ap₂ (λ (x y : List ℕ). record { handed = x; closed = y }) handed closed

-- When accept(2) gives new descriptors, none of them 0, and then fails: on an expected error the loop
-- ends, and those of the descriptors that are below the limit have gone to the callback, in their
-- order, or were closed when there is none; those at the limit or above it were neither. On any other
-- error the process aborts. What a later call would return does not matter.
pub accept_loop_lem :
    (a : Acceptor) (peeraddr : SockAddr) (cs : List (ℕ × SockAddr)) (e : Errno)
    (later : List (Call (ℕ × SockAddr)))
    → AllPositive cs
    → accept_loop a peeraddr (succeeded cs ++ (failed e ∷ later))
      ≡ (if is_expected e then some (disposed a (fds cs)) else none)
accept_loop_lem a peeraddr cs e later h =
    accept_loop-handle_read a peeraddr cs e later h
    ∙ ap (λ r. if is_expected e then some r else none)
        (handle_read-disposed a (fds cs) ∙ ap (disposed a) (accepted-fds cs h))
