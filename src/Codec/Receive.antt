-- ===== src/Codec/Receive.antt =====
-- All of `onMessage`: its loop over the messages in the buffer (irono/example/chat/codec.h).
use irono.Base.{
  ℕ, zero, suc, ◌≤◌, ◌<◌, ◌≡◌, refl, ap, ◌∙◌, Bool, true, false, some, List, [], ◌∷◌, ◌++◌, length,
  arith, append_assoc, length-append, append-nil, sym, Returns-some,
}
use irono.Buffer.{Buffer, readable_bytes}
use irono.Buffer.Inv.{IsValid, content, length-content, readable-eq}
use irono.Codec.{Handled, to_be32, deliver_first, on_message_loop, on_message, encode}
use irono.Codec.Header.{frame, length-to_be32}
use irono.Codec.Encode.{encode-frame}
use irono.Codec.Decode.{Tail, short, round-frame, round-Tail}

-- What the sender puts on the wire for a list of messages.
abbrev pub frames : List (List ℕ) → List ℕ
frames [] = []
frames (m ∷ ms) = frame m ++ frames ms

-- Every message is one that the receiver accepts.
abbrev pub AllSmall : List (List ℕ) → Type 0
AllSmall [] = Unit {0}
AllSmall (m ∷ ms) = (length m ≤ 65536) × AllSmall ms

-- `h` hands over `ms`, closes as `closing` says, and leaves a valid buffer with `tail`.
pub record Receives (ms : List (List ℕ)) (closing : Bool) (tail : List ℕ) (h : Handled)
    : Type 0 where
  pub all : h.messages ≡ ms
  pub ends : h.closing ≡ closing
  pub valid : IsValid h.rest
  pub left : content h.rest ≡ tail

loop_lem :
    (ms : List (List ℕ)) (fuel : ℕ) (b : Buffer) {tail : List ℕ} {closing : Bool}
    → IsValid b
    → AllSmall ms
    → Tail tail closing
    → content b ≡ frames ms ++ tail
    → length ms < fuel
    → (h : Handled) × (on_message_loop fuel b ≡ some h) × Receives ms closing tail h
unfolding on_message_loop
loop_lem ms zero b v small t e f = absurd (omega arith)
loop_lem [] (suc fuel) b {closing = true} v small t e f = (
  record { messages = []; closing = true; rest = b },
  rw (round-Tail b v t e, on_message_loop),
  record { all = refl; ends = refl; valid = v; left = e },
)
loop_lem [] (suc fuel) b {closing = false} v small t e f = (
  record { messages = []; closing = false; rest = b },
  rw (round-Tail b v t e, on_message_loop),
  record { all = refl; ends = refl; valid = v; left = e },
)
loop_lem (m ∷ ms) (suc fuel) b {tail = tail} v small t e f =
    let (b', r, valid, rest) =
      round-frame b m (frames ms ++ tail) v small.0 (e ∙ append_assoc (frame m) (frames ms) tail) in
    let (h, run, got) = loop_lem ms fuel b' valid small.1 t rest (omega arith) in
    (
      deliver_first m h,
      rw (r, run),
      record { all = ap (◌∷◌ m) got.all; ends = got.ends; valid = got.valid; left = got.left },
    )

length-frames : (ms : List (List ℕ)) → length ms ≤ length (frames ms)
length-frames [] = omega arith
length-frames (m ∷ ms) = omega (
  arith,
  length-frames ms,
  length-append (frame m) (frames ms),
  length-append (to_be32 (length m)) m,
  length-to_be32 (length m),
)

-- `onMessage`, on a valid buffer that holds complete messages of at most 65536 bytes and then a tail,
-- comes back, has handed over exactly those messages in order, and leaves the tail. It has called
-- `shutdown` when the tail begins with a header out of range, and not when the tail is the beginning
-- of a further message.
pub on_message_lem :
    (b : Buffer) (ms : List (List ℕ)) {tail : List ℕ} {closing : Bool}
    → IsValid b
    → AllSmall ms
    → Tail tail closing
    → content b ≡ frames ms ++ tail
    → (h : Handled) × (on_message b ≡ some h) × Receives ms closing tail h
unfolding on_message
on_message_lem b ms {tail = tail} v small t e = loop_lem ms (suc (readable_bytes b)) b v small t e (
    omega (
      arith,
      readable-eq v,
      length-content b v,
      ap length e,
      length-append (frames ms) tail,
      length-frames ms,
    ))

-- A message of at most 65536 bytes comes back whole: `onMessage` on the buffer that `send` builds hands
-- over exactly that message, does not close, and leaves nothing.
pub on_message-encode :
    (m : List ℕ)
    → length m ≤ 65536
    → (b : Buffer) × (h : Handled) × (encode m ≡ some b)
      × (on_message b ≡ some h)
      × Receives (m ∷ []) false [] h
on_message-encode m small =
    let (b, built, (valid, is)) =
      Returns-some (encode m) (λ b. IsValid b × (content b ≡ frame m))
        (encode-frame m (omega arith)) in
    let (h, run, got) =
      on_message_lem b (m ∷ []) valid (small, tt) (short [] (omega arith))
        (is ∙ sym (append-nil (frame m)) ∙ sym (append-nil (frame m ++ []))) in
    (b, h, built, run, got)
