-- ===== src/LogStream/Decimal.antt =====
-- What `convert` writes reads back as the integer (irono/base/LogStream.cc).
use mathlib.Core.List.{reverse, reverse-cons, reverse-append}
use irono.Base.{
  ℤ, pos, negsuc, ℕ, zero, suc, ◌+◌, ◌-◌, ◌*◌, ◌^◌, ◌≤◌, ◌<◌, ◌≡◌, refl, ap, ◌∙◌, ◌&&◌, Option,
  none, some, List, [], ◌∷◌, ◌++◌, length, leb, ◌==◌, if◌then◌else◌, arith, ◌>>=◌, Returns,
  Returns-bind, length-append,
}
use irono.LogStream.{convert_loop, convert}
use irono.LogStream.Digits.{magnitude, value, AllDigits, Writes, convert_loop-Writes}

-- Reading a decimal integer, from the left: an optional sign, and digits only.
unfoldable pub parse_digits : ℕ → List ℕ → Option ℕ
parse_digits acc [] = some acc
parse_digits acc (c ∷ cs) =
    if leb b'0' c && leb c b'9' then parse_digits (10 * acc + (c - b'0')) cs else none

abbrev pub negative : ℕ → ℤ
negative zero = pos 0
negative (suc n) = negsuc n

unfoldable pub parse : List ℕ → Option ℤ
unfolding parse_digits
parse [] = none
parse (c ∷ cs) =
    if c == b'-'
    then (parse_digits 0 cs >>= λ n. some (negative n))
    else (parse_digits 0 (c ∷ cs) >>= λ n. some (pos n))

parse_digits-append :
    (acc : ℕ) (xs ys : List ℕ)
    → parse_digits acc (xs ++ ys) ≡ (parse_digits acc xs >>= λ a. parse_digits a ys)
unfolding parse_digits
parse_digits-append acc [] ys = refl
parse_digits-append acc (x ∷ xs) ys =
    ground (arith, parse_digits-append (10 * acc + (x - b'0')) xs ys)

parse_digits-reverse : (cs : List ℕ) → AllDigits cs → parse_digits 0 (reverse cs) ≡ some (value cs)
unfolding parse_digits
parse_digits-reverse [] a = refl
parse_digits-reverse (c ∷ cs) (lo, hi, a) =
    rw (reverse-cons c cs, parse_digits-append 0 (reverse cs) (c ∷ []), parse_digits-reverse cs a)
      (ground arith)

AllDigits-append : (xs ys : List ℕ) → AllDigits xs → AllDigits ys → AllDigits (xs ++ ys)
AllDigits-append [] ys a b = b
AllDigits-append (x ∷ xs) ys (lo, hi, a) b = (lo, hi, AllDigits-append xs ys a b)

AllDigits-reverse : (cs : List ℕ) → AllDigits cs → AllDigits (reverse cs)
AllDigits-reverse [] a = tt
AllDigits-reverse (c ∷ cs) (lo, hi, a) =
    rw (reverse-cons c cs)
      (AllDigits-append (reverse cs) (c ∷ []) (AllDigits-reverse cs a) (lo, hi, tt))

pub length-reverse : (cs : List ℕ) → length (reverse cs) ≡ length cs
length-reverse [] = refl
length-reverse (c ∷ cs) =
    rw (reverse-cons c cs) (omega (arith, length-append (reverse cs) (c ∷ []), length-reverse cs))

-- A number that starts with a digit has no sign.
parse_unsigned :
    (s : List ℕ) → AllDigits s → 0 < length s → parse s ≡ (parse_digits 0 s >>= λ n. some (pos n))
unfolding parse
parse_unsigned [] a h = absurd (omega arith)
parse_unsigned (c ∷ cs) (lo, hi, a) h = ground arith

signed : (s : List ℕ) (n : ℕ) → parse_digits 0 s ≡ some (n + 1) → parse (b'-' ∷ s) ≡ some (negsuc n)
unfolding parse
signed s n e = rw e (ground arith)

-- `s` reads as `v`, and is at most a sign and twenty digits.
pub record Prints (v : ℤ) (s : List ℕ) : Type 0 where
  pub reads : parse s ≡ some v
  pub short : length s ≤ 21

-- `convert` of an integer of up to 64 bits, signed or not, ends within its twenty rounds and never
-- reads outside its table; what it writes has at most 21 characters, and reads back as the integer.
pub convert-Prints : (v : ℤ) → magnitude v < 10 ^ 20 → Returns (convert v) (Prints v)
unfolding convert
convert-Prints (pos n) h =
    Returns-bind (convert_loop 20 (pos n)) _ (Writes (pos n) 20) (Prints (pos n))
      (convert_loop-Writes 19 (pos n) h)
      (λ cs w. record {
        reads =
            parse_unsigned (reverse cs) (AllDigits-reverse cs w.all)
              (omega (arith, length-reverse cs, w.some_digit))
            ∙ rw (parse_digits-reverse cs w.all, w.worth) refl;
        short = omega (arith, length-reverse cs, w.short);
      })
convert-Prints (negsuc n) h =
    Returns-bind (convert_loop 20 (negsuc n)) _ (Writes (negsuc n) 20) (Prints (negsuc n))
      (convert_loop-Writes 19 (negsuc n) h)
      (λ cs w. record {
        reads =
            rw (reverse-append cs (b'-' ∷ []))
              (signed (reverse cs) n (parse_digits-reverse cs w.all ∙ ap some w.worth));
        short =
            omega
              (arith, length-reverse (cs ++ (b'-' ∷ [])), length-append cs (b'-' ∷ []), w.short);
      })
