-- ===== src/Codec/Total.antt =====
-- `onMessage` comes back on whatever bytes the peer sent (irono/example/chat/codec.h).
use irono.Base.{
  ℕ, zero, suc, ◌+◌, ◌≤◌, ◌<◌, ◌≡◌, true, false, some, List, [], ◌∷◌, length, drop, slice, arith,
  ◌>>=◌, Returns, Returns-bind, length-drop, length-slice,
}
use irono.Buffer.{Buffer, readable_bytes, retrieve}
use irono.Buffer.Inv.{IsValid, content, length-content, readable-eq}
use irono.Buffer.Retrieve.{retrieve_lem}
use irono.Codec.{
  Round, wait, reject, deliver, Handled, header_len, of_be32, take_message, round, deliver_first,
  on_message_loop, on_message,
}

-- The bytes that messages take on the wire.
abbrev pub wire_size : List (List ℕ) → ℕ
wire_size [] = 0
wire_size (m ∷ ms) = 4 + length m + wire_size ms

abbrev pub AllBounded : List (List ℕ) → Type 0
AllBounded [] = Unit {0}
AllBounded (m ∷ ms) = (length m ≤ 65536) × AllBounded ms

-- A round that delivers a message leaves a valid buffer without that message and its header.
abbrev Progress : Buffer → Round → Type 0
Progress b wait = Unit {0}
Progress b reject = Unit {0}
Progress b (deliver m b') =
    IsValid b' × (length (content b') + (4 + length m) ≡ length (content b)) × (length m ≤ 65536)

take_message-Progress :
    (b : Buffer) (len : ℕ)
    → IsValid b
    → len + 4 ≤ length (content b)
    → len ≤ 65536
    → Returns (take_message b len) (Progress b)
unfolding take_message
take_message-Progress b len v h small =
    Returns-bind (retrieve b header_len) _ (λ b'. IsValid b' × (content b' ≡ drop 4 (content b)))
      (Progress b) (retrieve_lem b 4 v (omega arith))
      (λ b' (v', e).
        let n : length (content b') + 4 ≡ length (content b) =
          ground (arith, length-drop 4 (content b)) in
        let m : length (slice b'.buffer b'.reader_index len) ≡ len =
          length-slice b'.buffer b'.reader_index len (omega (arith, length-content b' v')) in
        Returns-bind (retrieve b' len) _
          (λ b''. IsValid b'' × (content b'' ≡ drop len (content b'))) (Progress b)
          (retrieve_lem b' len v' (omega arith))
          (λ b'' (v'', e'). (v'', ground (arith, length-drop len (content b')), omega arith)))

round-Progress : (b : Buffer) → IsValid b → Returns (round b) (Progress b)
unfolding round
round-Progress b v = ground (
  arith,
  take_message-Progress b (of_be32 (slice b.buffer b.reader_index header_len)) v,
  length-content b v,
  readable-eq v,
)

-- All bytes are accounted for, and no message is longer than the limit.
pub record Handles (b : Buffer) (h : Handled) : Type 0 where
  pub valid : IsValid h.rest
  pub bounded : AllBounded h.messages
  pub sizes : wire_size h.messages + length (content h.rest) ≡ length (content b)

loop-Handles :
    (fuel : ℕ) (b : Buffer)
    → IsValid b
    → length (content b) < fuel
    → Returns (on_message_loop fuel b) (Handles b)
unfolding on_message_loop
loop-Handles zero b v f = absurd (omega arith)
loop-Handles (suc fuel) b v f =
    Returns-bind (round b) _ (Progress b) (Handles b) (round-Progress b v) (λ r p.
      elim r
          as (λ r.
            Progress b r
            → Returns
                (elim r [
                  | wait ↦ some (record { messages = []; closing = false; rest = b })
                  | reject ↦ some (record { messages = []; closing = true; rest = b })
                  | deliver m b' ↦ on_message_loop fuel b' >>= λ h. some (deliver_first m h)
                ])
                (Handles b)) [
                  | wait ↦ λ _. record { valid = v; bounded = tt; sizes = omega arith }
                  | reject ↦ λ _. record { valid = v; bounded = tt; sizes = omega arith }
                  | deliver m b' ↦ λ (v', n, small).
                      Returns-bind (on_message_loop fuel b') _ (Handles b') (Handles b)
                        (loop-Handles fuel b' v' (omega arith))
                        (λ h k. record {
                          valid = k.valid;
                          bounded = (small, k.bounded);
                          sizes = omega (arith, k.sizes);
                        })
                ]
        p)

-- On a valid buffer, whatever its bytes are, the loop of `onMessage` ends and no assert fails. No
-- message handed over is longer than 65536 bytes, each took its bytes and four more out of the
-- buffer, all other bytes are still there, and the buffer is valid.
pub on_message-Handles : (b : Buffer) → IsValid b → Returns (on_message b) (Handles b)
unfolding on_message
on_message-Handles b v =
    loop-Handles (suc (readable_bytes b)) b v (omega (arith, readable-eq v, length-content b v))
