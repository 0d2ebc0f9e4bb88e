-- ===== src/Codec/Header.antt =====
-- The four header bytes of a message (irono/example/chat/codec.h).
use irono.Base.{ℕ, ◌^◌, ◌<◌, ◌≡◌, List, ◌++◌, length, arith}
use irono.Codec.{to_be32, of_be32}

-- A 32-bit word survives the two conversions.
pub of_be32-to_be32 : (w : ℕ) → w < 2 ^ 32 → of_be32 (to_be32 w) ≡ w
unfolding to_be32 of_be32
of_be32-to_be32 w h = omega arith

pub length-to_be32 : (w : ℕ) → length (to_be32 w) ≡ 4
unfolding to_be32
length-to_be32 w = omega arith

-- A message on the wire.
abbrev pub frame : List ℕ → List ℕ
frame m = to_be32 (length m) ++ m
