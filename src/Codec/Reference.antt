-- ===== src/Codec/Reference.antt =====
-- `onMessage` against a decoder of plain byte sequences (irono/example/chat/codec.h).
use irono.Base.{
  ℕ, zero, suc, ◌+◌, ◌*◌, ◌≤◌, ◌<◌, ◌≡◌, refl, ap, ◌∙◌, Bool, true, false, some, List, [], ◌∷◌,
  length, drop, take, slice, ltb, leb, add_size, arith, if◌then◌else◌, ◌>>=◌, Returns, Returns-bind,
  Returns-mono, sym, subst, length-drop, Bool-cases, inl, inr,
}
use irono.Buffer.{Buffer, readable_bytes, retrieve}
use irono.Buffer.Inv.{IsValid, content, length-content, readable-eq, front-content}
use irono.Buffer.Retrieve.{retrieve_lem}
use irono.Codec.{
  Round, wait, reject, deliver, Handled, header_len, of_be32, is_invalid, take_message, round,
  deliver_first, on_message_loop, on_message,
}

-- The messages, whether a header is out of range, and the bytes left over.
pub record Decoded : Type 0 where
  pub messages : List (List ℕ)
  pub closing : Bool
  pub rest : List ℕ

abbrev add_message : List ℕ → Decoded → Decoded
add_message m d = record d { messages = m ∷ d.messages }

-- The number that bytes stand for, the most significant one first, behind `acc`.
abbrev number : ℕ → List ℕ → ℕ
number acc [] = acc
number acc (byte ∷ bytes) = number (acc * 256 + byte) bytes

-- The format, read off a sequence of bytes: four bytes of length, the most significant one first, then so
-- many bytes of message, at most 65536. `fuel` bounds the number of messages; each takes at least four
-- bytes.
unfoldable pub decode : ℕ → List ℕ → Decoded
decode zero xs = record { messages = []; closing = false; rest = xs }
decode (suc fuel) xs =
    let len = number 0 (take 4 xs) in
    let others = decode fuel (drop len (drop 4 xs)) in
    let nothing : Decoded = record { messages = []; closing = false; rest = xs } in
    if ltb (length xs) 4
    then nothing
    else (if ltb 65536 len
        then record nothing { closing = true }
        else (if ltb (length xs) (4 + len)
            then nothing
            else add_message (take len (drop 4 xs)) others))

-- The bytes of what `onMessage` leaves, with the messages and the flag.
abbrev pub view : Handled → Decoded
view h = record { messages = h.messages; closing = h.closing; rest = content h.rest }

-- What a round is to do with a buffer of these bytes.
data Reads (b : Buffer) : Round → Type 0 where
  waits :
      ((fuel : ℕ)
        → decode (suc fuel) (content b)
          ≡ record { messages = []; closing = false; rest = content b })
      → Reads b wait
  rejects :
      ((fuel : ℕ)
        → decode (suc fuel) (content b)
          ≡ record { messages = []; closing = true; rest = content b })
      → Reads b reject
  delivers :
      (m : List ℕ) (b' : Buffer)
      → IsValid b'
      → length (content b') < length (content b)
      → ((fuel : ℕ) → decode (suc fuel) (content b) ≡ add_message m (decode fuel (content b')))
      → Reads b (deliver m b')

take_message_at :
    (b : Buffer) (len : ℕ)
    → IsValid b
    → len + 4 ≤ length (content b)
    → Returns (take_message b len) (λ r.
      (b' : Buffer) × (r ≡ deliver (take len (drop 4 (content b))) b')
      × IsValid b'
      × (content b' ≡ drop len (drop 4 (content b))))
unfolding take_message
take_message_at b len v h =
    Returns-bind (retrieve b header_len) _ (λ b'. IsValid b' × (content b' ≡ drop 4 (content b))) _
      (retrieve_lem b 4 v (omega arith))
      (λ b' (v', e).
        let n : len ≤ length (content b') = ground (arith, length-drop 4 (content b)) in
        Returns-bind (retrieve b' len) _
          (λ b''. IsValid b'' × (content b'' ≡ drop len (content b'))) _ (retrieve_lem b' len v' n)
          (λ b'' (v'', e'). (
            b'',
            ap (λ m. deliver m b'') (front-content b' len v' n ∙ ap (take len) e),
            v'',
            e' ∙ ap (drop len) e,
          )))

-- The header's word is the number of its four bytes.
of_be32-number : (xs : List ℕ) → 4 ≤ length xs → of_be32 (take 4 xs) ≡ number 0 (take 4 xs)
unfolding of_be32
of_be32-number [] h = absurd (omega arith)
of_be32-number (a ∷ []) h = absurd (omega arith)
of_be32-number (a ∷ b ∷ []) h = absurd (omega arith)
of_be32-number (a ∷ b ∷ c ∷ []) h = absurd (omega arith)
of_be32-number (a ∷ b ∷ c ∷ d ∷ xs) h = omega arith

is_invalid-eq : (w : ℕ) → is_invalid w ≡ ltb 65536 w
is_invalid-eq w = ground arith

-- What the decoder does on a header that is too short, out of range, in front of too few bytes, or well.
decode-few :
    (fuel : ℕ) (xs : List ℕ)
    → leb 4 (length xs) ≡ false
    → decode (suc fuel) xs ≡ record { messages = []; closing = false; rest = xs }
unfolding decode
decode-few fuel xs few = let few' : ltb (length xs) 4 ≡ true = ground arith in rw few' refl

decode-bad :
    (fuel : ℕ) (xs : List ℕ)
    → leb 4 (length xs) ≡ true
    → ltb 65536 (number 0 (take 4 xs)) ≡ true
    → decode (suc fuel) xs ≡ record { messages = []; closing = true; rest = xs }
unfolding decode
decode-bad fuel xs header bad =
    let head' : ltb (length xs) 4 ≡ false = ground arith in rw (head', bad) refl

decode-part :
    (fuel : ℕ) (xs : List ℕ)
    → leb 4 (length xs) ≡ true
    → ltb 65536 (number 0 (take 4 xs)) ≡ false
    → leb (number 0 (take 4 xs) + 4) (length xs) ≡ false
    → decode (suc fuel) xs ≡ record { messages = []; closing = false; rest = xs }
unfolding decode
decode-part fuel xs header ok few =
    let few' : ltb (length xs) (4 + number 0 (take 4 xs)) ≡ true = ground arith in
    let head' : ltb (length xs) 4 ≡ false = ground arith in rw (head', ok, few') refl

decode-all :
    (fuel : ℕ) (xs : List ℕ)
    → leb 4 (length xs) ≡ true
    → ltb 65536 (number 0 (take 4 xs)) ≡ false
    → leb (number 0 (take 4 xs) + 4) (length xs) ≡ true
    → decode (suc fuel) xs
      ≡ add_message
          (take (number 0 (take 4 xs)) (drop 4 xs))
          (decode fuel (drop (number 0 (take 4 xs)) (drop 4 xs)))
unfolding decode
decode-all fuel xs header ok all =
    let all' : ltb (length xs) (4 + number 0 (take 4 xs)) ≡ false = ground arith in
    let head' : ltb (length xs) 4 ≡ false = ground arith in rw (head', ok, all') refl

round-Reads : (b : Buffer) → IsValid b → Returns (round b) (Reads b)
unfolding round
round-Reads b v =
    let size : readable_bytes b ≡ length (content b) = readable-eq v ∙ sym (length-content b v) in
    let len = number 0 (take 4 (content b)) in
    elim (Bool-cases (leb 4 (length (content b)))) [
      | inr few ↦ rw (size, few) (waits (λ fuel. decode-few fuel (content b) few))
      | inl header ↦
          let word : of_be32 (slice b.buffer b.reader_index 4) ≡ len =
            ap of_be32 (front-content b 4 v (ground arith))
            ∙ of_be32-number (content b) (ground arith) in
          let within : is_invalid len ≡ ltb 65536 len = is_invalid-eq len in
          elim (Bool-cases (ltb 65536 len)) [
            | inl bad ↦
                rw (size, header, word, within, bad)
                  (rejects (λ fuel. decode-bad fuel (content b) header bad))
            | inr ok ↦
                let sum : add_size len 4 ≡ len + 4 = ground arith in
                elim (Bool-cases (leb (len + 4) (length (content b)))) [
                  | inr few ↦
                      rw (size, header, word, within, ok, sum, few)
                        (waits (λ fuel. decode-part fuel (content b) header ok few))
                  | inl all ↦
                      rw (size, header, word, within, ok, sum, all)
                        (Returns-mono (take_message b len) _ (Reads b)
                          (take_message_at b len v (ground arith))
                          (λ r (b', e, v', left). subst (Reads b) (sym e) (
                            delivers _ b' v'
                              (ground (
                                arith,
                                length-drop 4 (content b),
                                length-drop len (drop 4 (content b)),
                              ))
                              (λ fuel.
                                decode-all fuel (content b) header ok all
                                ∙ ap
                                    (λ xs.
                                      add_message (take len (drop 4 (content b))) (decode fuel xs))
                                    (sym left)))))
                ]
          ]
    ]

-- The loop ends well, and as the decoder does.
abbrev pub Agrees : ℕ → Buffer → Handled → Type 0
Agrees n b h = IsValid h.rest × (view h ≡ decode n (content b))

go_on :
    (fuel n : ℕ) (b : Buffer)
    → IsValid b
    → ((b' : Buffer)
        → IsValid b'
        → length (content b') < length (content b)
        → Returns (on_message_loop fuel b') (Agrees n b'))
    → (r : Round) → Reads b r
    → Returns
        (elim r [
          | wait ↦ some (record { messages = []; closing = false; rest = b })
          | reject ↦ some (record { messages = []; closing = true; rest = b })
          | deliver m b' ↦ on_message_loop fuel b' >>= λ h. some (deliver_first m h)
        ])
        (Agrees (suc n) b)
go_on fuel n b v again wait (waits e) = (v, sym (e n))
go_on fuel n b v again reject (rejects e) = (v, sym (e n))
go_on fuel n b v again (deliver m b') (delivers _ _ v' less e) =
    Returns-bind (on_message_loop fuel b') _ (Agrees n b') (Agrees (suc n) b) (again b' v' less)
      (λ h k. (k.0, ap (add_message m) k.1 ∙ sym (e n)))

loop-decode :
    (fuel n : ℕ) (b : Buffer)
    → IsValid b
    → length (content b) < fuel
    → length (content b) < n
    → Returns (on_message_loop fuel b) (Agrees n b)
unfolding on_message_loop
loop-decode zero n b v f g = absurd (omega arith)
loop-decode (suc fuel) zero b v f g = absurd (omega arith)
loop-decode (suc fuel) (suc n) b v f g =
    Returns-bind (round b) _ (Reads b) (Agrees (suc n) b) (round-Reads b v)
      (go_on fuel n b v (λ b' v' less. loop-decode fuel n b' v' (omega arith) (omega arith)))

-- On a valid buffer, whatever its bytes are, `onMessage` comes back and does just what the decoder of
-- plain byte sequences says of them: it has handed over the same messages, has called `shutdown`
-- exactly if the decoder met a header out of range, and leaves the bytes that the decoder leaves, in
-- a valid buffer.
pub on_message-decode :
    (b : Buffer) → IsValid b → Returns (on_message b) (Agrees (suc (length (content b))) b)
unfolding on_message
on_message-decode b v =
    loop-decode (suc (readable_bytes b)) (suc (length (content b))) b v
      (omega (arith, readable-eq v, length-content b v)) (omega arith)
