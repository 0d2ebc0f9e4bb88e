-- ===== src/Base/Ranges.antt =====
-- Byte arrays: reading a range and overwriting one, as `std::string(p, n)` and `std::copy` do.
use Prim.Native.Nat.{ℕ, zero, suc, ◌+◌, ◌≤◌}
use mathlib.Core.Path.{◌≡◌, refl, ap, ◌∙◌}
use mathlib.Core.List.{List, [], ◌∷◌, ◌++◌}
use native.Mathlib.Omega.{arith}
use irono.Base.Lists.{length, take, drop, length-take, length-drop}

module _ {ℓ} {A : Type ℓ} where
  -- The `n` elements from index `i` on.
  abbrev pub slice : List A → ℕ → ℕ → List A
  slice xs i n = take n (drop i xs)

  -- `ys` written over `xs` from index `i` on. What would lie past the end is not written.
  abbrev pub overlay : List A → ℕ → List A → List A
  overlay [] i ys = []
  overlay (x ∷ xs) (suc i) ys = x ∷ overlay xs i ys
  overlay (x ∷ xs) zero [] = x ∷ xs
  overlay (x ∷ xs) zero (y ∷ ys) = y ∷ overlay xs zero ys

  pub length-overlay : (xs : List A) (i : ℕ) (ys : List A) → length (overlay xs i ys) ≡ length xs
  length-overlay [] i ys = refl
  length-overlay (x ∷ xs) (suc i) ys = ap suc (length-overlay xs i ys)
  length-overlay (x ∷ xs) zero [] = refl
  length-overlay (x ∷ xs) zero (y ∷ ys) = ap suc (length-overlay xs zero ys)

  pub length-slice : (xs : List A) (i n : ℕ) → i + n ≤ length xs → length (slice xs i n) ≡ n
  length-slice xs i n h = omega (arith, length-take n (drop i xs), length-drop i xs)

  -- A write leaves the range below it alone.
  pub slice-overlay_below :
      (xs : List A) (i n j : ℕ) (ys : List A)
      → i + n ≤ j
      → slice (overlay xs j ys) i n ≡ slice xs i n
  slice-overlay_below xs i zero j ys h = refl
  slice-overlay_below [] zero (suc n) j ys h = refl
  slice-overlay_below [] (suc i) (suc n) j ys h = refl
  slice-overlay_below (x ∷ xs) i (suc n) zero ys h = absurd (omega arith)
  slice-overlay_below (x ∷ xs) zero (suc n) (suc j) ys h =
      ap (◌∷◌ x) (slice-overlay_below xs zero n j ys (omega arith))
  slice-overlay_below (x ∷ xs) (suc i) (suc n) (suc j) ys h =
      slice-overlay_below xs i (suc n) j ys (omega arith)

  -- What was written is read back.
  pub slice-overlay_self :
      (xs : List A) (i : ℕ) (ys : List A)
      → i + length ys ≤ length xs
      → slice (overlay xs i ys) i (length ys) ≡ ys
  slice-overlay_self xs i [] h = refl
  slice-overlay_self [] i (y ∷ ys) h = absurd (omega arith)
  slice-overlay_self (x ∷ xs) zero (y ∷ ys) h =
      ap (◌∷◌ y) (slice-overlay_self xs zero ys (omega arith))
  slice-overlay_self (x ∷ xs) (suc i) (y ∷ ys) h = slice-overlay_self xs i (y ∷ ys) (omega arith)

  -- A write leaves the range above it alone.
  pub slice-overlay_above :
      (xs : List A) (i n j : ℕ) (ys : List A)
      → j + length ys ≤ i
      → slice (overlay xs j ys) i n ≡ slice xs i n
  slice-overlay_above [] i n j ys h = refl
  slice-overlay_above (x ∷ xs) zero n zero [] h = refl
  slice-overlay_above (x ∷ xs) zero n zero (y ∷ ys) h = absurd (omega arith)
  slice-overlay_above (x ∷ xs) zero n (suc j) ys h = absurd (omega arith)
  slice-overlay_above (x ∷ xs) (suc i) n zero [] h = refl
  slice-overlay_above (x ∷ xs) (suc i) n zero (y ∷ ys) h =
      slice-overlay_above xs i n zero ys (omega arith)
  slice-overlay_above (x ∷ xs) (suc i) n (suc j) ys h =
      slice-overlay_above xs i n j ys (omega arith)

  pub slice-append :
      (xs ys : List A) (i n : ℕ) → i + n ≤ length xs → slice (xs ++ ys) i n ≡ slice xs i n
  slice-append xs ys i zero h = refl
  slice-append [] ys zero (suc n) h = absurd (omega arith)
  slice-append [] ys (suc i) (suc n) h = absurd (omega arith)
  slice-append (x ∷ xs) ys zero (suc n) h = ap (◌∷◌ x) (slice-append xs ys zero n (omega arith))
  slice-append (x ∷ xs) ys (suc i) (suc n) h = slice-append xs ys i (suc n) (omega arith)

  drop-drop : (m n : ℕ) (xs : List A) → drop n (drop m xs) ≡ drop (m + n) xs
  drop-drop zero n xs = ap (λ k. drop k xs) (omega arith)
  drop-drop (suc m) zero [] =
      ap (λ k. drop k []) (let e : suc (m + 0) ≡ suc m + 0 = omega arith in e)
  drop-drop (suc m) (suc n) [] =
      ap (λ k. drop k []) (let e : suc (m + suc n) ≡ suc m + suc n = omega arith in e)
  drop-drop (suc m) n (x ∷ xs) =
      drop-drop m n xs
      ∙ ap (λ k. drop k (x ∷ xs)) (let e : suc (m + n) ≡ suc m + n = omega arith in e)

  pub take-add : (m n : ℕ) (xs : List A) → take (m + n) xs ≡ take m xs ++ take n (drop m xs)
  take-add zero n xs = ap (λ k. take k xs) (omega arith)
  take-add (suc m) n (x ∷ xs) =
      ap (λ k. take k (x ∷ xs)) (let e : suc m + n ≡ suc (m + n) = omega arith in e)
      ∙ ap (◌∷◌ x) (take-add m n xs)
  take-add (suc m) zero [] = ap (λ k. take k []) (let e : suc m + 0 ≡ suc m = omega arith in e)
  take-add (suc m) (suc n) [] =
      ap (λ k. take k []) (let e : suc m + suc n ≡ suc (m + suc n) = omega arith in e)

  -- Two ranges that meet.
  pub slice-add :
      (xs : List A) (i m n : ℕ) → slice xs i (m + n) ≡ slice xs i m ++ slice xs (i + m) n
  slice-add xs i m n =
      take-add m n (drop i xs) ∙ ap (λ ys. take m (drop i xs) ++ take n ys) (drop-drop i m xs)

  pub take-all : (n : ℕ) (xs : List A) → length xs ≤ n → take n xs ≡ xs
  take-all zero [] h = refl
  take-all zero (x ∷ xs) h = absurd (omega arith)
  take-all (suc n) [] h = refl
  take-all (suc n) (x ∷ xs) h = ap (◌∷◌ x) (take-all n xs (omega arith))

  pub drop-append : (n : ℕ) (xs ys : List A) → length xs ≡ n → drop n (xs ++ ys) ≡ ys
  drop-append zero [] ys h = refl
  drop-append zero (x ∷ xs) ys h = absurd (omega arith)
  drop-append (suc n) [] ys h = absurd (omega arith)
  drop-append (suc n) (x ∷ xs) ys h = drop-append n xs ys (omega arith)

  pub take-append : (n : ℕ) (xs ys : List A) → length xs ≡ n → take n (xs ++ ys) ≡ xs
  take-append zero [] ys h = refl
  take-append zero (x ∷ xs) ys h = absurd (omega arith)
  take-append (suc n) [] ys h = absurd (omega arith)
  take-append (suc n) (x ∷ xs) ys h = ap (◌∷◌ x) (take-append n xs ys (omega arith))

  pub drop-all : (n : ℕ) (xs : List A) → length xs ≤ n → drop n xs ≡ []
  drop-all zero [] h = refl
  drop-all zero (x ∷ xs) h = absurd (omega arith)
  drop-all (suc n) [] h = refl
  drop-all (suc n) (x ∷ xs) h = drop-all n xs (omega arith)
