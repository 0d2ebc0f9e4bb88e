-- ===== src/Sockets/Libc.antt =====
-- The conversions of addresses in the C library that irono/net/SocketsOps.cc and SocketsOps.h call.
use irono.Base.{ℕ, ◌≤◌, ◌<◌, ◌^◌, ◌≡◌, Option, some, List, length}

-- `inet_ntop` and `inet_pton` for IPv4, `%u` of `snprintf`, and the byte orders of a port. A stored
-- address is a word of 32 bits.
pub record CLib : Type 0 where
  pub ntop : ℕ → List ℕ
  pub pton : List ℕ → Option ℕ
  pub print_u : ℕ → List ℕ
  pub htons : ℕ → ℕ
  pub ntohs : ℕ → ℕ
  pub pton-ntop : (a : ℕ) → a < 2 ^ 32 → pton (ntop a) ≡ some a
  pub length-ntop : (a : ℕ) → a < 2 ^ 32 → length (ntop a) ≤ 15
  pub length-print_u : (n : ℕ) → n < 65536 → length (print_u n) ≤ 5
  pub ntohs-htons : (n : ℕ) → n < 65536 → ntohs (htons n) ≡ n
