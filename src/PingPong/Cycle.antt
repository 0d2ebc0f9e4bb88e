-- ===== src/PingPong/Cycle.antt =====
-- Sequences that go round: `xs ++ ys ≡ ms ++ xs`.
use irono.Base.{
  ℕ, zero, suc, ◌+◌, ◌-◌, ◌%◌, ◌<◌, ◌≡◌, refl, sym, ap, ◌∙◌, inl, inr, List, [], ◌∷◌, ◌++◌, length,
  get_elem?, arith, leb, Bool-cases,
}
use native.Mathlib.Nat.{mod-eq_of_lt, add-mod_right}

module _ {A : Type 0} where
  front : (xs ys : List A) (k : ℕ) → k < length xs → get_elem? (xs ++ ys) k ≡ get_elem? xs k
  front [] ys k h = absurd (omega arith)
  front (x ∷ xs) ys zero h = refl
  front (x ∷ xs) ys (suc k) h = front xs ys k (omega arith)

  behind : (xs ys : List A) (k : ℕ) → get_elem? (xs ++ ys) (k + length xs) ≡ get_elem? ys k
  behind [] ys k = ap (get_elem? ys) (omega arith)
  behind (x ∷ xs) ys k =
      let e : k + suc (length xs) ≡ suc (k + length xs) = omega arith in rw e (behind xs ys k)

  round :
      (fuel : ℕ) (ms xs ys : List A) (k : ℕ)
      → xs ++ ys ≡ ms ++ xs
      → 0 < length ms
      → k < length xs
      → k < fuel
      → get_elem? xs k ≡ get_elem? ms (k % length ms)
  round zero ms xs ys k e some_room h f = absurd (omega arith)
  round (suc fuel) ms xs ys k e some_room h f = elim (Bool-cases (leb (length ms) k)) [
    | inr first ↦
        let small : k < length ms = ground arith in
        let e' : k % length ms ≡ k = mod-eq_of_lt small in
        rw e' (sym (front xs ys k h) ∙ ap (λ zs. get_elem? zs k) e ∙ front ms xs k small)
    | inl later ↦
        let j = k - length ms in
        let split : k ≡ j + length ms = ground arith in
        sym (front xs ys k h)
        ∙ ap (λ zs. get_elem? zs k) e
        ∙ ap (get_elem? (ms ++ xs)) split
        ∙ behind ms xs j
        ∙ round fuel ms xs ys j e some_room (omega (arith, split)) (omega (arith, split))
        ∙ ap (get_elem? ms)
            (sym (add-mod_right j (length ms)) ∙ ap (λ n. n % length ms) (sym split))
  ]

  -- Such an `xs` is a part of `ms` repeated.
  pub goes_round :
      (ms xs ys : List A) (k : ℕ)
      → xs ++ ys ≡ ms ++ xs
      → 0 < length ms
      → k < length xs
      → get_elem? xs k ≡ get_elem? ms (k % length ms)
  goes_round ms xs ys k e some_room h = round (suc k) ms xs ys k e some_room h (omega arith)
