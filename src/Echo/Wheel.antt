-- ===== src/Echo/Wheel.antt =====
-- Where in the wheel an entry is (irono/example/echo/echo.h).
use irono.Base.{
  ℕ, zero, suc, ◌+◌, ◌<◌, ◌≡◌, refl, sym, subst, ==_iff, ap, Bool, true, false, ◌||◌, Option, none,
  some, List, [], ◌∷◌, ◌++◌, length, get_elem?, take, ◌==◌, ltb, not, ◌&&◌, if◌then◌else◌, arith,
  Bool-cases, inl, inr, Option-cases, replicate,
}
use irono.Echo.{mem, insert, is_held}

-- The first bucket that has the entry.
abbrev pub later : Option ℕ → Option ℕ
later none = none
later (some k) = some (suc k)

abbrev pub age : ℕ → List (List ℕ) → Option ℕ
age c [] = none
age c (b ∷ bs) = if mem c b then some 0 else later (age c bs)

abbrev pub is_some : Option ℕ → Bool
is_some none = false
is_some (some k) = true

pub is_held-age : (c : ℕ) (bs : List (List ℕ)) → is_held c bs ≡ is_some (age c bs)
is_held-age c [] = refl
is_held-age c (b ∷ bs) = ground (arith, is_held-age c bs)

absorbed : (c d : ℕ) (b : List ℕ) → mem d b ≡ true → (c == d || mem c b) ≡ mem c b
absorbed c d b h = elim (Bool-cases (c == d)) [
  | inl e ↦
      let here : mem c b ≡ true = subst (λ x. mem x b ≡ true) (sym ((==_iff c d).0 e)) h in
      rw (e, here) refl
  | inr e ↦ rw e refl
]

mem-insert : (c d : ℕ) (b : List ℕ) → mem c (insert d b) ≡ (c == d || mem c b)
mem-insert c d b = elim (Bool-cases (mem d b)) [
  | inl e ↦ rw e (sym (absorbed c d b e))
  | inr e ↦ rw e refl
]

-- The last bucket is as old as the others are many.
abbrev pub oldest : Option ℕ → Bool → ℕ → Option ℕ
oldest (some k) here n = some k
oldest none true n = some n
oldest none false n = none

age-append :
    (c : ℕ) (bs : List (List ℕ)) (b : List ℕ)
    → age c (bs ++ (b ∷ [])) ≡ oldest (age c bs) (mem c b) (length bs)
age-append c [] b = ground arith
age-append c (x ∷ bs) b = ground (arith, age-append c bs b)

pub age-below : (c : ℕ) (bs : List (List ℕ)) (k : ℕ) → age c bs ≡ some k → k < length bs
age-below c [] k e = cc
age-below c (b ∷ bs) k e = elim (Option-cases (age c bs)) [
  | inl n ↦ ground (arith, n)
  | inr (j, n) ↦ ground (arith, n, age-below c bs j n)
]

pub age-replicate : (c n : ℕ) → age c (replicate n []) ≡ none
age-replicate c zero = refl
age-replicate c (suc n) = rw (age-replicate c n) refl

-- An insertion at the front.
pub age-insert :
    (c d : ℕ) (b : List ℕ) (bs : List (List ℕ))
    → age c (insert d b ∷ bs) ≡ (if c == d then some 0 else age c (b ∷ bs))
age-insert c d b bs = ground (arith, mem-insert c d b)

pub split_last :
    (bs : List (List ℕ))
    → 0 < length bs
    → (front : List (List ℕ)) × (b : List ℕ) × (bs ≡ front ++ (b ∷ []))
split_last [] h = absurd (omega arith)
split_last (b ∷ []) h = ([], b, refl)
split_last (b ∷ d ∷ bs) h =
    let (front, last, e) = split_last (d ∷ bs) (omega arith) in
    (b ∷ front, last, ap (λ xs. b ∷ xs) e)

pub get_elem?-last :
    (front : List (List ℕ)) (b : List ℕ) → get_elem? (front ++ (b ∷ [])) (length front) ≡ some b
get_elem?-last [] b = refl
get_elem?-last (x ∷ front) b = get_elem?-last front b

pub take-front :
    (front : List (List ℕ)) (b : List ℕ) → take (length front) (front ++ (b ∷ [])) ≡ front
take-front [] b = refl
take-front (x ∷ front) b = rw (take-front front b)

-- The age of an entry when the wheel turns: it is one more, or the entry is destroyed.
unfoldable pub turned : Option ℕ → ℕ → Option ℕ
turned none n = none
turned (some k) n = if ltb (k + 1) n then some (k + 1) else none

-- Whether the entry was in the last bucket alone.
unfoldable pub falls_out : Option ℕ → ℕ → Bool
falls_out none n = false
falls_out (some k) n = not (ltb (k + 1) n)

pub age-turn :
    (c : ℕ) (front : List (List ℕ)) (b : List ℕ)
    → age c ([] ∷ front) ≡ turned (age c (front ++ (b ∷ []))) (length front + 1)
unfolding turned
age-turn c front b = elim (Option-cases (age c front)) [
  | inl e ↦ ground (arith, e, age-append c front b)
  | inr (k, e) ↦ ground (arith, e, age-append c front b, age-below c front k e)
]

pub falls_out-turn :
    (c : ℕ) (front : List (List ℕ)) (b : List ℕ)
    → (mem c b && not (is_held c front)) ≡ falls_out (age c (front ++ (b ∷ []))) (length front + 1)
unfolding falls_out
falls_out-turn c front b = elim (Option-cases (age c front)) [
  | inl e ↦ ground (arith, e, age-append c front b, is_held-age c front)
  | inr (k, e) ↦ ground (arith, e, age-append c front b, age-below c front k e, is_held-age c front)
]
