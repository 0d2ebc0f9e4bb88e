-- ===== src/Codec/Encode.antt =====
-- `send`: the buffer that it hands to the connection (irono/example/chat/codec.h).
use irono.Base.{
  ℕ, ◌%◌, ◌^◌, ◌<◌, ◌≡◌, ap, ◌∙◌, List, ◌++◌, length, arith, Returns, Returns-bind, Returns-mono,
}
use irono.Buffer.{create, append, prepend}
use irono.Buffer.Inv.{IsValid, content, create-IsValid}
use irono.Buffer.Append.{append_lem, Appended}
use irono.Buffer.Retrieve.{prepend_lem}
use irono.Codec.{to_be32, encode}
use irono.Codec.Header.{frame, length-to_be32}

-- For a message of less than 2^32 bytes `send` builds a buffer that holds its frame: the four bytes
-- of its length, which fit in front, and the message.
pub encode-frame :
    (m : List ℕ) → length m < 2 ^ 32 → Returns (encode m) (λ b. IsValid b × (content b ≡ frame m))
unfolding encode create
encode-frame m h =
    Returns-bind (append create m) _ (Appended create m) (λ b. IsValid b × (content b ≡ frame m))
      (append_lem create m create-IsValid (omega arith))
      (λ b a.
        let e : length m % 2 ^ 32 ≡ length m = omega arith in
        rw e (
          Returns-mono (prepend b (to_be32 (length m)))
            (λ b'. IsValid b' × (content b' ≡ to_be32 (length m) ++ content b))
            (λ b'. IsValid b' × (content b' ≡ frame m))
            (prepend_lem b (to_be32 (length m)) a.valid
              (omega (arith, a.front, length-to_be32 (length m))))
            (λ b' r. (r.0, r.1 ∙ ap (◌++◌ (to_be32 (length m))) a.bytes_behind))))
