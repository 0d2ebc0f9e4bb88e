-- ===== src/EventLoopThreadPool/RoundRobin.antt =====
-- `getNextLoop` deals the loops out in turn (irono/net/EventLoopThreadPool.cc).
use irono.Base.{
  ℕ, zero, suc, ◌+◌, ◌%◌, ◌<◌, ◌≡◌, refl, sym, ap, ap₂, ◌∙◌, some, List, [], ◌∷◌, length, get_elem?,
  get_or, arith, leb, Bool-cases, inl, inr,
}
use native.Mathlib.Nat.{mod-eq_of_lt, mod-add-mod, mod-mod, mod_self}
use irono.EventLoopThreadPool.{EventLoopThreadPool, advance, get_next_loop, take_loops}

advance-eq : (i n : ℕ) → i < n → advance i n ≡ (i + 1) % n
advance-eq i n h = elim (Bool-cases (leb n (i + 1))) [
  | inl last ↦ rw last (let e : i + 1 ≡ n = ground arith in rw e (sym (mod_self n)))
  | inr more ↦ rw more (sym (mod-eq_of_lt (ground arith)))
]

module _ {L : Type 0} where
  -- The loops at `i`, `i + 1` and so on, `k` of them, going round.
  abbrev pub in_turn : List L → L → ℕ → ℕ → List L
  in_turn loops d i zero = []
  in_turn loops d i (suc k) = get_or loops (i % length loops) d ∷ in_turn loops d (i + 1) k

  get_elem?-some :
      (xs : List L) (i : ℕ) (d : L) → i < length xs → get_elem? xs i ≡ some (get_or xs i d)
  get_elem?-some [] i d h = absurd (omega arith)
  get_elem?-some (x ∷ xs) zero d h = refl
  get_elem?-some (x ∷ xs) (suc i) d h = get_elem?-some xs i d (omega arith)

  pub get_next_loop-eq :
      (p : EventLoopThreadPool L)
      → p.next < length p.loops
      → get_next_loop p
        ≡ some
            (get_or p.loops p.next p.base_loop, record p { next = (p.next + 1) % length p.loops })
  unfolding get_next_loop
  get_next_loop-eq p h =
      ground
        (arith, advance-eq p.next (length p.loops), get_elem?-some p.loops p.next p.base_loop h)

  in_turn-mod : (xs : List L) (d : L) (i k : ℕ) → in_turn xs d (i % length xs) k ≡ in_turn xs d i k
  in_turn-mod xs d i zero = refl
  in_turn-mod xs d i (suc k) = ap₂ ◌∷◌ (ap (λ j. get_or xs j d) (mod-mod i (length xs))) (
      sym (in_turn-mod xs d (i % length xs + 1) k)
      ∙ ap (λ j. in_turn xs d j k) (mod-add-mod i (length xs) 1)
      ∙ in_turn-mod xs d (i + 1) k)

  -- In a pool whose `next` is one of its loops, `n` calls of `getNextLoop` never read past the end:
  -- they deal the loops out in turn, from the one at `next` on and round from the last to the
  -- first, and leave `next` at the one after.
  pub take_loops_lem :
      (n : ℕ) (p : EventLoopThreadPool L)
      → p.next < length p.loops
      → take_loops n p
        ≡ some (
          in_turn p.loops p.base_loop p.next n,
          record p { next = (p.next + n) % length p.loops },
        )
  unfolding take_loops
  take_loops_lem zero p h = ground (arith, mod-eq_of_lt h)
  take_loops_lem (suc n) p h =
      let p' = record p { next = (p.next + 1) % length p.loops } in
      let rest = take_loops_lem n p' (omega arith) in
      rw (get_next_loop-eq p h, rest)
        (ground (
          arith,
          mod-eq_of_lt h,
          in_turn-mod p.loops p.base_loop (p.next + 1) n,
          mod-add-mod (p.next + 1) (length p.loops) n,
          (let e : p.next + 1 + n ≡ p.next + suc n = omega arith in e),
        ))
