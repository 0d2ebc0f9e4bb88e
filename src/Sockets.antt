-- ===== src/Sockets.antt =====
-- The wrappers of socket calls of irono/net/SocketsOps.h, SocketsOps.cc and Socket.cc, and the
-- addresses of irono/net/InetAddress.cc. What a system call returns is an argument.
pub mod Libc
pub mod HostPort
pub mod Accept
mod Tests
use irono.Base.{
  ℕ, ◌+◌, ◌-◌, Bool, true, false, ◌&&◌, Option, none, some, List, [], ◌∷◌, ◌++◌, take, ◌==◌,
  if◌then◌else◌, assert, ◌>>=◌, ◌>>◌, ℤ, pos, negsuc,
}
use Libc.{CLib}

pub data Errno : Type 0 where
  eagain econnaborted eintr eproto eperm emfile : Errno
  ebadf efault einval enfile enobufs enomem enotsock eopnotsupp : Errno
  other : ℕ → Errno

-- A system call: what it returns when it is not -1, or the `errno`.
pub data Call (A : Type 0) : Type 0 where
  returned : A → Call A
  failed : Errno → Call A

-- `struct sockaddr_in`, with the port and the address as they are stored.
pub record SockAddr : Type 0 where
  pub is_inet : Bool
  pub port : ℕ
  pub addr : ℕ

abbrev pub zeroed : SockAddr
zeroed = record { is_inet = false; port = 0; addr = 0 }

-- `createNonblockingOrDie`, `bindOrDie` and `listenOrDie`: a failure is fatal.
unfoldable pub or_die : {A : Type 0} → Call A → Option A
or_die (returned a) = some a
or_die (failed e) = none

-- The errors of accept(2) that are expected.
unfoldable pub is_expected : Errno → Bool
is_expected eagain = true
is_expected econnaborted = true
is_expected eintr = true
is_expected eproto = true
is_expected eperm = true
is_expected emfile = true
is_expected ebadf = false
is_expected efault = false
is_expected einval = false
is_expected enfile = false
is_expected enobufs = false
is_expected enomem = false
is_expected enotsock = false
is_expected eopnotsupp = false
is_expected (other n) = false

-- `sockets::accept`: the descriptor, or -1 on an expected error, and the address of the peer.
unfoldable pub accept : SockAddr → Call (ℕ × SockAddr) → Option (ℤ × SockAddr)
unfolding is_expected
accept addr (returned (connfd, peer)) = some (pos connfd, peer)
accept addr (failed e) = assert (is_expected e) >> some (negsuc 0, addr)

-- `Socket::accept`: a failure leaves the address of the caller as it was.
unfoldable pub socket_accept : SockAddr → Call (ℕ × SockAddr) → Option (ℤ × SockAddr)
unfolding accept
socket_accept peeraddr call =
    accept zeroed call >>= λ r. some (elim (r.0) [ pos connfd ↦ r | negsuc n ↦ (r.0, peeraddr) ])

-- `getLocalAddr`, where a failure is fatal, and `getPeerAddr`, where it is logged.
unfoldable pub get_local_addr : Call SockAddr → Option SockAddr
get_local_addr (returned a) = some a
get_local_addr (failed e) = none

unfoldable pub get_peer_addr : Call SockAddr → SockAddr
get_peer_addr (returned a) = a
get_peer_addr (failed e) = zeroed

-- `getSocketError`: the pending error of the socket, `none` for 0, or that of the call itself.
unfoldable pub get_socket_error : Call (Option Errno) → Option Errno
get_socket_error (returned e) = e
get_socket_error (failed e) = some e

unfoldable pub is_self_connect : Call SockAddr → Call SockAddr → Option Bool
unfolding get_local_addr get_peer_addr
is_self_connect local peer = get_local_addr local >>= λ l.
    let p = get_peer_addr peer in some (l.port == p.port && l.addr == p.addr)

-- What `inet_pton` stores.
abbrev pub with_addr : SockAddr → Option ℕ → SockAddr
with_addr a none = a
with_addr a (some addr) = record a { addr = addr }

module _ (C : CLib) where
  -- `snprintf` of `"%s:%u"` into `size` bytes.
  unfoldable pub to_host_port : ℕ → SockAddr → List ℕ
  to_host_port size a =
      take (size - 1) (CLib.ntop C a.addr ++ (b':' ∷ CLib.print_u C (CLib.ntohs C a.port)))

  -- An address that is none is logged, and what was there stays.
  unfoldable pub from_host_port : List ℕ → ℕ → SockAddr → SockAddr
  from_host_port ip port a =
      let a' = record a { is_inet = true; port = CLib.htons C port } in
      with_addr a' (CLib.pton C ip)

  -- `InetAddress` of a port, with `INADDR_ANY`, and of an address and a port.
  unfoldable pub any_address : ℕ → SockAddr
  any_address port = record { is_inet = true; port = CLib.htons C port; addr = 0 }

  unfoldable pub inet_address : List ℕ → ℕ → SockAddr
  unfolding from_host_port
  inet_address ip port = from_host_port ip port zeroed

  -- `InetAddress::toHostPort`.
  unfoldable pub host_port : SockAddr → List ℕ
  unfolding to_host_port
  host_port a = to_host_port 32 a
