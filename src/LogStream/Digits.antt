-- ===== src/LogStream/Digits.antt =====
-- The characters that the loops of `convert` and `convertHex` write (irono/base/LogStream.cc).
use irono.Base.{
  ℤ, pos, negsuc, ℕ, zero, suc, ◌+◌, ◌-◌, ◌*◌, ◌/◌, ◌%◌, ◌^◌, ◌≤◌, ◌<◌, ◌≡◌, refl, true, some, List,
  [], ◌∷◌, length, get_elem?, ◌==◌, arith, Bool-cases, inl, inr, Returns, Returns-bind,
}
use native.Mathlib.Nat.{pow-suc}
use irono.LogStream.{quot10, last_digit, is_zero, convert_loop, digits}

abbrev pub magnitude : ℤ → ℕ
magnitude (pos n) = n
magnitude (negsuc n) = n + 1

above : (d : ℕ) → d < 10 → get_elem? digits (9 + d) ≡ some (48 + d)
above d h = ground arith

below : (d : ℕ) → d < 10 → get_elem? digits (9 - d) ≡ some (48 + d)
below d h = ground arith

-- A table look-up, digit by digit.
pub last_digit_lem : (i : ℤ) → last_digit i ≡ some (b'0' + magnitude i % 10)
unfolding last_digit
last_digit_lem (pos n) = above (n % 10) (omega arith)
last_digit_lem (negsuc n) = below ((n + 1) % 10) (omega arith)

pub magnitude-quot10 : (i : ℤ) → magnitude (quot10 i) ≡ magnitude i / 10
unfolding quot10
magnitude-quot10 (pos n) = refl
magnitude-quot10 (negsuc n) = ground arith

-- The value of decimal digits, the last one first.
abbrev pub value : List ℕ → ℕ
value [] = 0
value (c ∷ cs) = (c - b'0') + 10 * value cs

-- Decimal digits.
abbrev pub AllDigits : List ℕ → Type 0
AllDigits [] = Unit {0}
AllDigits (c ∷ cs) = (b'0' ≤ c) × (c ≤ b'9') × AllDigits cs

is_zero-eq : (i : ℤ) → is_zero i ≡ (magnitude i == 0)
is_zero-eq (pos n) = refl
is_zero-eq (negsuc n) = ground arith

-- What the loop writes for `i`: between one and `most` digits, of the value of `i`.
pub record Writes (i : ℤ) (most : ℕ) (cs : List ℕ) : Type 0 where
  pub all : AllDigits cs
  pub worth : value cs ≡ magnitude i
  pub short : length cs ≤ most
  pub some_digit : 0 < length cs

pub convert_loop-Writes :
    (fuel : ℕ) (i : ℤ)
    → magnitude i < 10 ^ suc fuel
    → Returns (convert_loop (suc fuel) i) (Writes i (suc fuel))
unfolding convert_loop
convert_loop-Writes zero i h =
    let last : is_zero (quot10 i) ≡ true =
      ground (arith, is_zero-eq (quot10 i), magnitude-quot10 i) in
    rw (last_digit_lem i, last) (omega (arith, h))
convert_loop-Writes (suc f) i h = elim (Bool-cases (is_zero (quot10 i))) [
  | inl last ↦
      let small : magnitude i < 10 = ground (arith, is_zero-eq (quot10 i), magnitude-quot10 i) in
      rw (last_digit_lem i, last) (omega arith)
  | inr more ↦
      rw (last_digit_lem i, more)
        (Returns-bind (convert_loop (suc f) (quot10 i)) _ (Writes (quot10 i) (suc f))
          (Writes i (suc (suc f)))
          (convert_loop-Writes f (quot10 i) (omega (arith, magnitude-quot10 i, pow-suc 10 (suc f))))
          (λ cs w. record {
            all = (omega arith, omega arith, w.all);
            worth = omega (arith, w.worth, magnitude-quot10 i);
            short = omega (arith, w.short);
            some_digit = omega arith;
          }))
]
