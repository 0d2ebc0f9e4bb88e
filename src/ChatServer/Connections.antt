-- ===== src/ChatServer/Connections.antt =====
-- What is in the set (irono/example/chat/server_threaded_efficient.cc).
use irono.Base.{ℕ, ◌≡◌, refl, Bool, true, false, ◌||◌, List, [], ◌∷◌, ◌==◌, arith, not, ◌&&◌}
use irono.ChatServer.{insert, erase}

abbrev pub mem : ℕ → List ℕ → Bool
mem c [] = false
mem c (d ∷ ds) = c == d || mem c ds

same_test : (a b c : ℕ) → (a == b) ≡ true → (c == a) ≡ (c == b)
same_test a b c e = ground arith

pub mem-insert : (c d : ℕ) (xs : List ℕ) → mem d (insert c xs) ≡ (d == c || mem d xs)
unfolding insert
mem-insert c d [] = refl
mem-insert c d (x ∷ xs) = ground (arith, mem-insert c d xs)

pub mem-erase : (c d : ℕ) (xs : List ℕ) → mem d (erase c xs) ≡ (not (d == c) && mem d xs)
unfolding erase
mem-erase c d [] = ground arith
mem-erase c d (x ∷ xs) = ground (arith, mem-erase c d xs)
