-- ===== src/LogStream/Hex.antt =====
-- What `convertHex` writes reads back as the address (irono/base/LogStream.cc).
use native.Mathlib.Nat.{pow-suc}
use mathlib.Core.List.{reverse, reverse-cons}
use irono.Base.{
  ℕ, zero, suc, ◌+◌, ◌-◌, ◌*◌, ◌/◌, ◌%◌, ◌^◌, ◌≤◌, ◌<◌, ◌≡◌, refl, ◌&&◌, true, Option, none, some,
  List, [], ◌∷◌, ◌++◌, length, get_elem?, get_or, leb, ◌==◌, if◌then◌else◌, arith, ◌>>=◌,
  Bool-cases, Option-cases, inl, inr, Returns, Returns-bind,
}
use irono.LogStream.{convert_hex_loop, convert_hex, digits_hex}
use irono.LogStream.Decimal.{length-reverse}

-- The value of a hexadecimal digit, in upper case.
abbrev hex_value : ℕ → Option ℕ
hex_value c =
    if leb b'0' c && leb c b'9'
    then some (c - b'0')
    else (if leb b'A' c && leb c b'F' then some (c - b'A' + 10) else none)

-- Reading a hexadecimal number, from the left.
unfoldable pub parse_hex : ℕ → List ℕ → Option ℕ
parse_hex acc [] = some acc
parse_hex acc (c ∷ cs) = hex_value c >>= λ d. parse_hex (16 * acc + d) cs

parse_hex-append :
    (acc : ℕ) (xs ys : List ℕ)
    → parse_hex acc (xs ++ ys) ≡ (parse_hex acc xs >>= λ a. parse_hex a ys)
unfolding parse_hex
parse_hex-append acc [] ys = refl
parse_hex-append acc (x ∷ xs) ys = elim (Option-cases (hex_value x)) [
  | inl e ↦ rw e refl
  | inr (d, e) ↦ rw e (parse_hex-append (16 * acc + d) xs ys)
]

hex_digit : (d : ℕ) → d < 16 → (c : ℕ) × (get_elem? digits_hex d ≡ some c) × (hex_value c ≡ some d)
hex_digit d h = (get_or digits_hex d 0, ground arith, ground arith)

-- The digits, the last one first, read as `i` from the left, and there are at most `most`.
abbrev pub Reads : ℕ → ℕ → List ℕ → Type 0
Reads i most cs = (parse_hex 0 (reverse cs) ≡ some i) × (0 < length cs) × (length cs ≤ most)

more_digits :
    (i j d c : ℕ) (cs : List ℕ)
    → parse_hex 0 (reverse cs) ≡ some j
    → hex_value c ≡ some d
    → i ≡ 16 * j + d
    → parse_hex 0 (reverse (c ∷ cs)) ≡ some i
unfolding parse_hex
more_digits i j d c cs e f same =
    rw (reverse-cons c cs, parse_hex-append 0 (reverse cs) (c ∷ []), e, f, same) refl

one_digit :
    (i c : ℕ) → hex_value c ≡ some (i % 16) → i < 16 → parse_hex 0 (reverse (c ∷ [])) ≡ some i
unfolding parse_hex
one_digit i c e h = more_digits i 0 (i % 16) c [] refl e (omega arith)

hex_loop_lem :
    (fuel i : ℕ) → i < 16 ^ suc fuel → Returns (convert_hex_loop (suc fuel) i) (Reads i (suc fuel))
unfolding convert_hex_loop
hex_loop_lem zero i h =
    let (c, e, f) = hex_digit (i % 16) (omega arith) in
    let last : (i / 16 == 0) ≡ true = ground arith in
    rw (e, last) (one_digit i c f (omega arith), omega arith, omega arith)
hex_loop_lem (suc g) i h =
    let (c, e, f) = hex_digit (i % 16) (omega arith) in
    elim (Bool-cases (i / 16 == 0)) [
      | inl last ↦ rw (e, last) (one_digit i c f (ground arith), omega arith, omega arith)
      | inr more ↦
          rw (e, more)
            (Returns-bind (convert_hex_loop (suc g) (i / 16)) _ (Reads (i / 16) (suc g)) _
              (hex_loop_lem g (i / 16) (omega (arith, pow-suc 16 (suc g))))
              (λ cs (w, _, few).
                (more_digits i (i / 16) (i % 16) c cs w f (omega arith), omega arith, omega arith)))
    ]

-- `s` reads as the address `p`, and has at least one digit and at most sixteen.
abbrev pub PrintsHex : ℕ → List ℕ → Type 0
PrintsHex p s = (parse_hex 0 s ≡ some p) × (0 < length s) × (length s ≤ 16)

pub convert_hex-PrintsHex : (p : ℕ) → p < 2 ^ 64 → Returns (convert_hex p) (PrintsHex p)
unfolding convert_hex
convert_hex-PrintsHex p h =
    Returns-bind (convert_hex_loop 16 p) _ (Reads p 16) (PrintsHex p)
      (hex_loop_lem 15 p (omega arith))
      (λ cs (w, one, few). (w, omega (arith, length-reverse cs), omega (arith, length-reverse cs)))
