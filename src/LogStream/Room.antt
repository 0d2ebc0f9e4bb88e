-- ===== src/LogStream/Room.antt =====
-- A line never leaves its buffer (irono/base/LogStream.h and LogStream.cc).
use irono.Base.{
  ℕ, ◌+◌, ◌^◌, ◌<◌, ◌≡◌, ◌⊎◌, inl, inr, refl, true, some, List, [], ◌∷◌, ◌++◌, length, leb, ltb,
  arith, Bool-cases, false, Returns, Returns-mono, Returns-some, Returns-bind, length-append,
}
use irono.LogStream.{
  small_buffer, max_numeric_size, avail, append, has_room, convert, convert_hex, format_integer,
  Item, text, null_text, null_string, integer, char, pointer, double, put,
}
use irono.LogStream.Digits.{magnitude}
use irono.LogStream.Decimal.{Prints, parse, convert-Prints}
use irono.LogStream.Hex.{parse_hex, PrintsHex, convert_hex-PrintsHex}

-- Texts of fewer than 2^31 bytes, integers of at most 64 bits, addresses, and what `snprintf` makes of a
-- `double` with `%.12g`.
abbrev pub InRange : Item → Type 0
InRange (text s) = length s < 2 ^ 31
InRange (integer v) = magnitude v < 10 ^ 20
InRange (pointer p) = p < 2 ^ 64
InRange (double s) = length s < max_numeric_size
InRange _ = Unit {0}

-- The text of an item: a number's reads back as the number.
abbrev pub Renders : Item → List ℕ → Type 0
Renders (text s) t = t ≡ s
Renders null_text t = t ≡ null_string
Renders (integer v) t = parse t ≡ some v
Renders (char c) t = t ≡ c ∷ []
Renders (pointer p) t =
    (s : List ℕ) × (t ≡ b'0' ∷ b'x' ∷ s) × (parse_hex 0 s ≡ some p) × (0 < length s)
Renders (double s) t = t ≡ s

-- The room that must be left for an item.
abbrev pub needed : Item → ℕ
needed (text s) = length s + 1
needed null_text = 7
needed (char c) = 2
needed _ = max_numeric_size

-- The whole text of the item is appended, or nothing for want of room; a byte is left in any case.
abbrev pub Puts : List ℕ → Item → List ℕ → Type 0
Puts b item b' =
    (length b' < small_buffer)
    × (((b' ≡ b) × (avail b < needed item)) ⊎ ((t : List ℕ) × (b' ≡ b ++ t) × Renders item t))

append_lem :
    (b t : List ℕ)
    → length b < small_buffer
    → length t < 2 ^ 31
    → Returns
        (append b t)
        (λ b'. (length b' < small_buffer) × (((b' ≡ b) × (avail b < length t + 1)) ⊎ (b' ≡ b ++ t)))
unfolding append
append_lem b t h small = elim (Bool-cases (ltb (length t) (avail b))) [
  | inl fits ↦
      let room : has_room b (length t) ≡ true = ground arith in
      let inside : leb (length t) (avail b) ≡ true = ground arith in
      rw (room, inside) (ground (arith, length-append b t), inr refl)
  | inr full ↦
      let no_room : has_room b (length t) ≡ false = ground arith in
      rw no_room (h, inl (refl, ground arith))
]

append-Puts :
    (b t : List ℕ) (item : Item)
    → length b < small_buffer
    → length t < 2 ^ 31
    → Renders item t
    → length t < needed item
    → Returns (append b t) (Puts b item)
append-Puts b t item h small r enough =
    Returns-mono (append b t) _ (Puts b item) (append_lem b t h small) (λ b' (inside, how). (
      inside,
      elim how [ inl (same, full) ↦ inl (same, omega arith) | inr added ↦ inr (t, added, r) ],
    ))

-- Whatever is put into a line that has a byte left, in whatever order, where a text has fewer than 2^31
-- bytes and a number at most 64 bits: the write ends, stays inside the buffer with a byte left, and
-- appends the whole text of the item, or nothing if the room that the item needs is not left. The text
-- of an integer reads back as that integer, and the text of a pointer, behind 0x, as its address.
pub put-Puts :
    (b : List ℕ) (item : Item)
    → length b < small_buffer
    → InRange item
    → Returns (put b item) (Puts b item)
unfolding put format_integer
put-Puts b (text s) h r = append-Puts b s (text s) h r refl (omega arith)
put-Puts b null_text h r = append-Puts b null_string null_text h (omega arith) refl (omega arith)
put-Puts b (integer v) h r = elim (Bool-cases (leb max_numeric_size (avail b))) [
  | inl fits ↦ rw fits (
      Returns-bind (convert v) _ (Prints v) (Puts b (integer v)) (convert-Prints v r)
        (λ s w. (ground (arith, length-append b s, w.short), inr (s, refl, w.reads))))
  | inr full ↦ rw full (h, inl (refl, ground arith))
]
put-Puts b (char c) h r = append-Puts b (c ∷ []) (char c) h (omega arith) refl (omega arith)
put-Puts b (pointer p) h r =
    let (s, e, (reads, one, few)) =
      Returns-some (convert_hex p) (PrintsHex p) (convert_hex-PrintsHex p r) in
    elim (Bool-cases (leb max_numeric_size (avail b))) [
      | inl fits ↦
          rw (fits, e)
            (
              ground (arith, length-append b (b'0' ∷ b'x' ∷ s)),
              inr (b'0' ∷ b'x' ∷ s, refl, (s, refl, reads, one)),
            )
      | inr full ↦ rw full (h, inl (refl, ground arith))
    ]
put-Puts b (double s) h r = elim (Bool-cases (leb max_numeric_size (avail b))) [
  | inl fits ↦ rw fits (ground (arith, length-append b s), inr (s, refl, refl))
  | inr full ↦ rw full (h, inl (refl, ground arith))
]
