-- ===== src/TcpServer/Connections.antt =====
-- The map of connections by name (`TcpServer::connections_` of irono/net/TcpServer.h).
use irono.Base.{ℕ, ◌≡◌, refl, Option, none, some, List, [], ◌∷◌, ◌==◌, if◌then◌else◌, arith}
use irono.TcpServer.{Connection, set_connection, erase_connection}

module _ {L : Type 0} where
  -- The map as a function.
  abbrev pub find : ℕ → List (Connection L) → Option (Connection L)
  find n [] = none
  find n (d ∷ ds) = if d.id == n then some d else find n ds

  abbrev pub Unique : List (Connection L) → Type 0
  Unique [] = Unit {0}
  Unique (d ∷ ds) = (find d.id ds ≡ none) × Unique ds

  pub find-set_connection :
      (n : ℕ) (c : Connection L) (ds : List (Connection L))
      → find n (set_connection c ds) ≡ (if c.id == n then some c else find n ds)
  unfolding set_connection
  find-set_connection n c [] = refl
  find-set_connection n c (d ∷ ds) = ground (arith, find-set_connection n c ds)

  pub set_connection-Unique :
      (c : Connection L) (ds : List (Connection L)) → Unique ds → Unique (set_connection c ds)
  unfolding set_connection
  set_connection-Unique c [] u = (refl, tt)
  set_connection-Unique c (d ∷ ds) u =
      ground (arith, set_connection-Unique c ds u.1, find-set_connection d.id c ds)

  pub find-erase_connection :
      (n m : ℕ) (ds : List (Connection L))
      → Unique ds
      → find n ((erase_connection m ds).1) ≡ (if m == n then none else find n ds)
  unfolding erase_connection
  find-erase_connection n m [] u = ground arith
  find-erase_connection n m (d ∷ ds) u = ground (arith, find-erase_connection n m ds u.1)

  pub erase_connection-Unique :
      (m : ℕ) (ds : List (Connection L)) → Unique ds → Unique ((erase_connection m ds).1)
  unfolding erase_connection
  erase_connection-Unique m [] u = tt
  erase_connection-Unique m (d ∷ ds) u =
      ground (arith, erase_connection-Unique m ds u.1, find-erase_connection d.id m ds u.1)

  pub erase_connection-one :
      (m : ℕ) (c : Connection L) (ds : List (Connection L))
      → find m ds ≡ some c
      → (erase_connection m ds).0 ≡ 1
  unfolding erase_connection
  erase_connection-one m c [] h = cc
  erase_connection-one m c (d ∷ ds) h = ground (arith, erase_connection-one m c ds)

  pub erase_connection-zero :
      (m : ℕ) (ds : List (Connection L)) → find m ds ≡ none → (erase_connection m ds).0 ≡ 0
  unfolding erase_connection
  erase_connection-zero m [] h = refl
  erase_connection-zero m (d ∷ ds) h = ground (arith, erase_connection-zero m ds)
