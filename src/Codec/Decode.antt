-- ===== src/Codec/Decode.antt =====
-- `onMessage` on a buffer that holds any number of messages and the beginning of another
-- (irono/example/chat/codec.h).
use irono.Base.{
  ℕ, ◌+◌, ◌^◌, ◌≤◌, ◌<◌, ◌≡◌, refl, sym, ap, ◌∙◌, Bool, true, false, some, List, ◌++◌, length, take,
  drop, slice, arith, Returns-some, append_assoc, length-append, take-append, drop-append,
}
use irono.Buffer.{Buffer, readable_bytes, retrieve}
use irono.Buffer.Inv.{IsValid, content, length-content, front-content}
use irono.Buffer.Retrieve.{retrieve_lem}
use irono.Codec.{to_be32, of_be32, Round, wait, reject, deliver, take_message, round}
use irono.Codec.Header.{of_be32-to_be32, length-to_be32, frame}

dropped :
    (b : Buffer) (xs ys : List ℕ)
    → IsValid b
    → content b ≡ xs ++ ys
    → (b' : Buffer) × (retrieve b (length xs) ≡ some b') × IsValid b' × (content b' ≡ ys)
dropped b xs ys v e =
    let (b', r, (valid, rest)) =
      Returns-some (retrieve b (length xs))
        (λ b'. IsValid b' × (content b' ≡ drop (length xs) (content b)))
        (retrieve_lem b (length xs) v (omega (arith, ap length e, length-append xs ys))) in
    (b', r, valid, rest ∙ ap (drop (length xs)) e ∙ drop-append (length xs) xs ys refl)

front :
    (b : Buffer) (xs ys : List ℕ)
    → IsValid b
    → content b ≡ xs ++ ys
    → slice b.buffer b.reader_index (length xs) ≡ xs
front b xs ys v e =
    front-content b (length xs) v (omega (arith, ap length e, length-append xs ys))
    ∙ ap (take (length xs)) e
    ∙ take-append (length xs) xs ys refl

take_message_lem :
    (b : Buffer) (header m tail : List ℕ)
    → IsValid b
    → length header ≡ 4
    → content b ≡ header ++ (m ++ tail)
    → (b' : Buffer) × (take_message b (length m) ≡ some (deliver m b'))
      × IsValid b'
      × (content b' ≡ tail)
unfolding take_message
take_message_lem b header m tail v four e =
    let (b', r, valid, rest) = dropped b header (m ++ tail) v e in
    let (b'', r', valid', rest') = dropped b' m tail valid rest in
    let r4 : retrieve b 4 ≡ some b' = ap (retrieve b) (sym four) ∙ r in
    (b'', rw (r4, r', front b' m tail valid rest), valid', rest')

-- A header in front is read as its word.
header_word :
    (b : Buffer) (w : ℕ) (tail : List ℕ)
    → IsValid b
    → w < 2 ^ 32
    → content b ≡ to_be32 w ++ tail
    → (of_be32 (slice b.buffer b.reader_index 4) ≡ w) × (readable_bytes b ≡ 4 + length tail)
header_word b w tail v h e = (
  ap of_be32
        (ap (slice b.buffer b.reader_index) (sym (length-to_be32 w)) ∙ front b (to_be32 w) tail v e)
      ∙ of_be32-to_be32 w h,
  omega (arith, length-content b v, ap length e, length-append (to_be32 w) tail, length-to_be32 w),
)

pub round-frame :
    (b : Buffer) (m tail : List ℕ)
    → IsValid b
    → length m ≤ 65536
    → content b ≡ frame m ++ tail
    → (b' : Buffer) × (round b ≡ some (deliver m b')) × IsValid b' × (content b' ≡ tail)
unfolding round
round-frame b m tail v small e =
    let e' : content b ≡ to_be32 (length m) ++ (m ++ tail) =
      e ∙ append_assoc (to_be32 (length m)) m tail in
    let (word, size) = header_word b (length m) (m ++ tail) v (omega arith) e' in
    let (b', r, valid, rest) =
      take_message_lem b (to_be32 (length m)) m tail v (length-to_be32 (length m)) e' in
    (b', ground (arith, word, size, r, length-append m tail), valid, rest)

-- What a buffer can end in: less than a message, or a header with a length out of range.
pub data Tail : List ℕ → Bool → Type 0 where
  short : (xs : List ℕ) → length xs < 4 → Tail xs false
  partial :
      (n : ℕ) (xs part : List ℕ)
      → n ≤ 65536
      → length part < n
      → xs ≡ to_be32 n ++ part
      → Tail xs false
  bad : (w : ℕ) (xs part : List ℕ) → 65536 < w → w < 2 ^ 32 → xs ≡ to_be32 w ++ part → Tail xs true

abbrev pub ending : Bool → Round
ending false = wait
ending true = reject

pub round-Tail :
    (b : Buffer) {tail : List ℕ} {closing : Bool}
    → IsValid b
    → Tail tail closing
    → content b ≡ tail
    → round b ≡ some (ending closing)
unfolding round
round-Tail b v (short xs h) e = ground (arith, length-content b v, ap length e)
round-Tail b v (partial n xs part h k e') e =
    ground (arith, header_word b n part v (omega arith) (e ∙ e'))
round-Tail b v (bad w xs part h k e') e = ground (arith, header_word b w part v k (e ∙ e'))
