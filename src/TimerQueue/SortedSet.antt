-- ===== src/TimerQueue/SortedSet.antt =====
-- `std::set` of pairs, in lexicographic order, as the sorted list of its elements
-- (`TimerList` and `ActiveTimerSet` of irono/net/TimerQueue.h).
use irono.Base.{
  ℕ, suc, ◌≡◌, refl, Bool, true, false, not, ◌&&◌, ◌||◌, List, [], ◌∷◌, ◌++◌, length, ltb, ◌==◌,
  if◌then◌else◌, arith,
}

pub record Key : Type 0 where
  pub first : ℕ
  pub second : ℕ

abbrev pub key_lt : Key → Key → Bool
key_lt a b = ltb a.first b.first || (a.first == b.first && ltb a.second b.second)

abbrev pub key_eq : Key → Key → Bool
key_eq a b = a.first == b.first && a.second == b.second

unfoldable pub mem : Key → List Key → Bool
mem k [] = false
mem k (x ∷ xs) = key_eq k x || mem k xs

-- An equal element is left as it is.
unfoldable pub insert : Key → List Key → List Key
insert k [] = k ∷ []
insert k (x ∷ xs) =
    if key_lt k x then k ∷ x ∷ xs else (if key_eq k x then x ∷ xs else x ∷ insert k xs)

unfoldable pub erase : Key → List Key → List Key
erase k [] = []
erase k (x ∷ xs) = if key_eq k x then xs else x ∷ erase k xs

-- The elements before `lower_bound(sentry)`, and those from it on.
unfoldable pub before : Key → List Key → List Key
before sentry [] = []
before sentry (x ∷ xs) = if key_lt x sentry then x ∷ before sentry xs else []

unfoldable pub from : Key → List Key → List Key
from sentry [] = []
from sentry (x ∷ xs) = if key_lt x sentry then from sentry xs else x ∷ xs

abbrev pub Above : Key → List Key → Type 0
Above k [] = Unit {0}
Above k (x ∷ xs) = (key_lt k x ≡ true) × Above k xs

abbrev pub IsSorted : List Key → Type 0
IsSorted [] = Unit {0}
IsSorted (x ∷ xs) = Above x xs × IsSorted xs

Above-trans : (j k : Key) (xs : List Key) → key_lt j k ≡ true → Above k xs → Above j xs
Above-trans j k [] h a = tt
Above-trans j k (x ∷ xs) h a = (ground arith, Above-trans j k xs h a.1)

Above-not_mem : (k : Key) (xs : List Key) → Above k xs → mem k xs ≡ false
unfolding mem
Above-not_mem k [] a = refl
Above-not_mem k (x ∷ xs) a = ground (arith, Above-not_mem k xs a.1)

pub mem-insert : (j k : Key) (xs : List Key) → mem j (insert k xs) ≡ (key_eq j k || mem j xs)
unfolding mem insert
mem-insert j k [] = ground arith
mem-insert j k (x ∷ xs) = ground (arith, mem-insert j k xs)

pub mem_congr : (j k : Key) (xs : List Key) → key_eq j k ≡ true → mem j xs ≡ mem k xs
unfolding mem
mem_congr j k [] e = refl
mem_congr j k (x ∷ xs) e = ground (arith, mem_congr j k xs e)

pub mem-erase :
    (j k : Key) (xs : List Key) → IsSorted xs → mem j (erase k xs) ≡ (not (key_eq j k) && mem j xs)
unfolding mem erase
mem-erase j k [] s = ground arith
mem-erase j k (x ∷ xs) s =
    ground (arith, mem-erase j k xs s.1, Above-not_mem x xs s.0, mem_congr j x xs)

pub length-insert :
    (k : Key) (xs : List Key) → mem k xs ≡ false → length (insert k xs) ≡ suc (length xs)
unfolding mem insert
length-insert k [] h = refl
length-insert k (x ∷ xs) h = ground (arith, length-insert k xs)

pub length-erase :
    (k : Key) (xs : List Key) → mem k xs ≡ true → suc (length (erase k xs)) ≡ length xs
unfolding mem erase
length-erase k [] h = cc
length-erase k (x ∷ xs) h = ground (arith, length-erase k xs)

Above-insert : (j k : Key) (xs : List Key) → key_lt j k ≡ true → Above j xs → Above j (insert k xs)
unfolding insert
Above-insert j k [] h a = (h, tt)
Above-insert j k (x ∷ xs) h a = ground (arith, Above-insert j k xs h a.1)

pub insert-IsSorted : (k : Key) (xs : List Key) → IsSorted xs → IsSorted (insert k xs)
unfolding insert
insert-IsSorted k [] s = (tt, tt)
insert-IsSorted k (x ∷ xs) s =
    ground (arith, insert-IsSorted k xs s.1, Above-insert x k xs, Above-trans k x xs)

Above-erase : (j k : Key) (xs : List Key) → Above j xs → Above j (erase k xs)
unfolding erase
Above-erase j k [] a = tt
Above-erase j k (x ∷ xs) a = ground (arith, Above-erase j k xs a.1)

pub erase-IsSorted : (k : Key) (xs : List Key) → IsSorted xs → IsSorted (erase k xs)
unfolding erase
erase-IsSorted k [] s = tt
erase-IsSorted k (x ∷ xs) s = ground (arith, erase-IsSorted k xs s.1, Above-erase x k xs s.0)

pub before-from : (sentry : Key) (xs : List Key) → before sentry xs ++ from sentry xs ≡ xs
unfolding before from
before-from sentry [] = refl
before-from sentry (x ∷ xs) = ground (arith, before-from sentry xs)

Above-mem : (j k : Key) (xs : List Key) → Above k xs → mem j xs ≡ true → key_lt k j ≡ true
unfolding mem
Above-mem j k [] a h = cc
Above-mem j k (x ∷ xs) a h = ground (arith, Above-mem j k xs a.1)

-- Splitting at the lower bound splits by the order.
pub mem-before :
    (j sentry : Key) (xs : List Key)
    → IsSorted xs
    → mem j (before sentry xs) ≡ (key_lt j sentry && mem j xs)
unfolding mem before
mem-before j sentry [] s = ground arith
mem-before j sentry (x ∷ xs) s = ground (arith, mem-before j sentry xs s.1, Above-mem j x xs s.0)

pub mem-from :
    (j sentry : Key) (xs : List Key)
    → IsSorted xs
    → mem j (from sentry xs) ≡ (not (key_lt j sentry) && mem j xs)
unfolding mem from
mem-from j sentry [] s = ground arith
mem-from j sentry (x ∷ xs) s = ground (arith, mem-from j sentry xs s.1, Above-mem j x xs s.0)

Above-before : (k sentry : Key) (xs : List Key) → Above k xs → Above k (before sentry xs)
unfolding before
Above-before k sentry [] a = tt
Above-before k sentry (x ∷ xs) a = ground (arith, Above-before k sentry xs a.1)

pub before-IsSorted : (sentry : Key) (xs : List Key) → IsSorted xs → IsSorted (before sentry xs)
unfolding before
before-IsSorted sentry [] s = tt
before-IsSorted sentry (x ∷ xs) s =
    ground (arith, before-IsSorted sentry xs s.1, Above-before x sentry xs s.0)

pub from-IsSorted : (sentry : Key) (xs : List Key) → IsSorted xs → IsSorted (from sentry xs)
unfolding from
from-IsSorted sentry [] s = tt
from-IsSorted sentry (x ∷ xs) s = ground (arith, from-IsSorted sentry xs s.1)
