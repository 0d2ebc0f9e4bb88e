-- ===== src/LogStream/Tests.antt =====
-- A line with a negative number in it (irono/base/LogStream.cc).
use irono.Base.{ℤ, negsuc, ℕ, ◌≡◌, refl, some, List, [], ◌∷◌, arith, Returns}
use irono.LogStream.{integer, convert, convert_loop, quot10, last_digit, put}
use irono.LogStream.Decimal.{Prints, convert-Prints}
use irono.LogStream.Room.{Puts, put-Puts}

-- The smallest `long`, -2^63.
abbrev least : ℤ
least = negsuc 9223372036854775807

convert-Prints_example : Returns (convert least) (Prints least)
convert-Prints_example = convert-Prints least (omega arith)

abbrev line : List ℕ
line = b'n' ∷ b'=' ∷ []

put-Puts_example : Returns (put line (integer (negsuc 41))) (Puts line (integer (negsuc 41)))
put-Puts_example = put-Puts line (integer (negsuc 41)) (omega arith) (omega arith)

minus_42 : convert (negsuc 41) ≡ some (b'-' ∷ b'4' ∷ b'2' ∷ [])
unfolding convert convert_loop quot10 last_digit
minus_42 = refl
