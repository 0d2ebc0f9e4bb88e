-- ===== src/LogStream.antt =====
-- Formatting into the fixed buffer of one log line (irono/base/LogStream.h and LogStream.cc).
pub mod Digits
pub mod Decimal
pub mod Hex
pub mod Room
mod Tests
use mathlib.Core.List.{reverse}
use irono.Base.{
  ℕ, zero, suc, ◌+◌, ◌-◌, ◌/◌, ◌%◌, ◌^◌, ◌||◌, assert, ◌>>◌, Bool, true, false, not, Option, none,
  some, List, [], ◌∷◌, ◌++◌, length, get_elem?, ltb, leb, ◌==◌, if◌then◌else◌, ◌>>=◌, ℤ, pos,
  negsuc,
}

abbrev pub small_buffer : ℕ
small_buffer = 4000

abbrev pub max_numeric_size : ℕ
max_numeric_size = 32

-- `digits`; `zero` points to its tenth element, so that a negative last digit has its place too.
abbrev pub digits : List ℕ
digits =
    b'9' ∷ b'8' ∷ b'7' ∷ b'6' ∷ b'5' ∷ b'4' ∷ b'3' ∷ b'2' ∷ b'1' ∷ b'0' ∷ b'1' ∷ b'2' ∷ b'3' ∷ b'4'
    ∷ b'5' ∷ b'6' ∷ b'7' ∷ b'8' ∷ b'9' ∷ []

abbrev pub digits_hex : List ℕ
digits_hex =
    b'0' ∷ b'1' ∷ b'2' ∷ b'3' ∷ b'4' ∷ b'5' ∷ b'6' ∷ b'7' ∷ b'8' ∷ b'9' ∷ b'A' ∷ b'B' ∷ b'C' ∷ b'D'
    ∷ b'E' ∷ b'F' ∷ []

-- `i / 10`, towards zero.
unfoldable pub quot10 : ℤ → ℤ
quot10 (pos n) = pos (n / 10)
quot10 (negsuc n) = if ltb n 9 then pos 0 else negsuc ((n + 1) / 10 - 1)

-- `zero[i % 10]`, with the sign of the remainder that of `i`.
unfoldable pub last_digit : ℤ → Option ℕ
last_digit (pos n) = get_elem? digits (9 + n % 10)
last_digit (negsuc n) = get_elem? digits (9 - (n + 1) % 10)

abbrev pub is_zero : ℤ → Bool
is_zero (pos n) = n == 0
is_zero (negsuc n) = false

abbrev pub is_negative : ℤ → Bool
is_negative (pos n) = false
is_negative (negsuc n) = true

-- The `do` loop, with the characters in the order in which it writes them.
unfoldable pub convert_loop : ℕ → ℤ → Option (List ℕ)
convert_loop zero i = none
convert_loop (suc fuel) i = last_digit i >>= λ c.
    let rest = convert_loop fuel (quot10 i) in
    if is_zero (quot10 i) then some (c ∷ []) else (rest >>= λ cs. some (c ∷ cs))

-- Twenty digits are enough for 64 bits.
unfoldable pub convert : ℤ → Option (List ℕ)
convert value = convert_loop 20 value >>= λ cs.
    some (reverse (if is_negative value then cs ++ (b'-' ∷ []) else cs))

unfoldable pub convert_hex_loop : ℕ → ℕ → Option (List ℕ)
convert_hex_loop zero i = none
convert_hex_loop (suc fuel) i = get_elem? digits_hex (i % 16) >>= λ c.
    let rest = convert_hex_loop fuel (i / 16) in
    if i / 16 == 0 then some (c ∷ []) else (rest >>= λ cs. some (c ∷ cs))

unfoldable pub convert_hex : ℕ → Option (List ℕ)
convert_hex value = convert_hex_loop 16 value >>= λ cs. some (reverse cs)

-- A `FixedBuffer<kSmallBuffer>`: the bytes before `cur_`.
abbrev pub avail : List ℕ → ℕ
avail b = small_buffer - length b

-- `avail() > static_cast<int>(len)`: from 2^31 to 2^32 the `int` is negative, and it wraps around.
abbrev pub has_room : List ℕ → ℕ → Bool
has_room b len = leb (2 ^ 31) (len % 2 ^ 32) || ltb (len % 2 ^ 32) (avail b)

-- A `memcpy` past the end of the buffer is a fault.
unfoldable pub append : List ℕ → List ℕ → Option (List ℕ)
append b bytes =
    let copied = assert (leb (length bytes) (avail b)) >> some (b ++ bytes) in
    if has_room b (length bytes) then copied else some b

unfoldable pub format_integer : List ℕ → ℤ → Option (List ℕ)
format_integer b v =
    if leb max_numeric_size (avail b) then (convert v >>= λ s. some (b ++ s)) else some b

-- What `operator<<` takes. A `double` comes with what `snprintf` makes of it.
pub data Item : Type 0 where
  text : List ℕ → Item
  null_text : Item
  integer : ℤ → Item
  char : ℕ → Item
  pointer : ℕ → Item
  double : List ℕ → Item

abbrev pub null_string : List ℕ
null_string = b'(' ∷ b'n' ∷ b'u' ∷ b'l' ∷ b'l' ∷ b')' ∷ []

unfoldable pub put : List ℕ → Item → Option (List ℕ)
put b (text s) = append b s
put b null_text = append b null_string
put b (integer v) = format_integer b v
put b (char c) = append b (c ∷ [])
put b (pointer p) =
    if leb max_numeric_size (avail b)
    then (convert_hex p >>= λ s. some (b ++ (b'0' ∷ b'x' ∷ s)))
    else some b
put b (double s) = if leb max_numeric_size (avail b) then some (b ++ s) else some b
