-- ===== src/Sockets/HostPort.antt =====
-- Addresses as text (irono/net/InetAddress.cc).
use irono.Base.{
  ℕ, ◌≤◌, ◌<◌, ◌^◌, ◌≡◌, refl, ap, none, List, [], ◌∷◌, ◌++◌, zero, suc, length, take,
  length-append, arith,
}
use irono.Sockets.{from_host_port, to_host_port, inet_address, host_port, any_address}
use irono.Sockets.Libc.{CLib}

take_enough : (n : ℕ) (xs : List ℕ) → length xs ≤ n → take n xs ≡ xs
take_enough zero [] h = refl
take_enough zero (x ∷ xs) h = absurd (omega arith)
take_enough (suc n) [] h = refl
take_enough (suc n) (x ∷ xs) h = ap (λ ys. x ∷ ys) (take_enough n xs (omega arith))

module _ (C : CLib) where
  abbrev text : ℕ → ℕ → List ℕ
  text a port = CLib.ntop C a ++ (b':' ∷ CLib.print_u C port)

  fits : (a port : ℕ) → a < 2 ^ 32 → port < 65536 → length (text a port) ≤ 31
  fits a port ha hp = omega (
    arith,
    length-append (CLib.ntop C a) (b':' ∷ CLib.print_u C port),
    CLib.length-ntop C a ha,
    CLib.length-print_u C port hp,
  )

  -- An address and a port written as text, read back as an `InetAddress` and printed, give the same
  -- text, never cut by the buffer of 32 bytes. A text that is no address stands for 0.0.0.0, as if only
  -- the port had been given.
  pub host_port-inet_address :
      (a port : ℕ)
      → a < 2 ^ 32
      → port < 65536
      → (host_port C (inet_address C (CLib.ntop C a) port)
          ≡ CLib.ntop C a ++ (b':' ∷ CLib.print_u C port))
        × ((bad : List ℕ) → CLib.pton C bad ≡ none → inet_address C bad port ≡ any_address C port)
  unfolding host_port to_host_port inet_address from_host_port any_address
  host_port-inet_address a port ha hp = (
    rw (CLib.pton-ntop C a ha, CLib.ntohs-htons C port hp)
        (take_enough 31 (text a port) (fits a port ha hp)),
    λ bad e. rw e refl,
  )
