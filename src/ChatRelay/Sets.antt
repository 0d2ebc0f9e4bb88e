-- ===== src/ChatRelay/Sets.antt =====
-- Sets with no element twice, and a step for each element
-- (irono/example/chat/server_threaded_highperformance.cc).
use irono.Base.{
  ℕ, ◌≡◌, refl, true, false, Bool, not, ◌&&◌, List, [], ◌∷◌, ◌++◌, if◌then◌else◌, update, arith,
}
use irono.ChatServer.{insert, erase}
use irono.ChatServer.Connections.{mem, mem-insert, mem-erase}
use irono.ChatRelay.{push_all}

abbrev pub is_set : List ℕ → Bool
is_set [] = true
is_set (x ∷ xs) = not (mem x xs) && is_set xs

pub is_set-insert :
    (c : ℕ) (xs : List ℕ) → mem c xs ≡ false → is_set xs ≡ true → is_set (insert c xs) ≡ true
unfolding insert
is_set-insert c [] out set = refl
is_set-insert c (x ∷ xs) out set = ground (arith, is_set-insert c xs, mem-insert c x xs)

pub is_set-erase : (c : ℕ) (xs : List ℕ) → is_set xs ≡ true → is_set (erase c xs) ≡ true
unfolding erase
is_set-erase c [] set = refl
is_set-erase c (x ∷ xs) set = ground (arith, is_set-erase c xs, mem-erase c x xs)

pub push_all_lem :
    (ks : List ℕ) (m : ℕ) (f : ℕ → List ℕ) (k : ℕ)
    → is_set ks ≡ true
    → push_all ks m f k ≡ (if mem k ks then f k ++ (m ∷ []) else f k)
push_all_lem [] m f k set = refl
push_all_lem (x ∷ ks) m f k set = ground (arith, push_all_lem ks m (update f x (f x ++ (m ∷ []))) k)
