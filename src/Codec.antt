-- ===== src/Codec.antt =====
-- The length-prefixed messages of irono/example/chat/codec.h, over the buffer of irono/net.
pub mod Header
pub mod Encode
pub mod Decode
pub mod Receive
pub mod Total
pub mod Reference
mod Tests
use irono.Base.{
  ℕ, zero, suc, ◌+◌, ◌*◌, ◌/◌, ◌%◌, ◌^◌, Bool, true, false, ◌&&◌, ◌||◌, Option, none, some, List,
  [], ◌∷◌, length, slice, ltb, leb, add_size, if◌then◌else◌, ◌>>=◌, ◌>>◌,
}
use irono.Buffer.{Buffer, readable_bytes, retrieve, create, append, prepend}

abbrev pub header_len : ℕ
header_len = 4

-- The bytes of a 32-bit word in network order, and back (`htonl` and `ntohl` on the stored word).
unfoldable pub to_be32 : ℕ → List ℕ
to_be32 w = w / 2 ^ 24 % 256 ∷ w / 2 ^ 16 % 256 ∷ w / 2 ^ 8 % 256 ∷ w % 256 ∷ []

unfoldable pub of_be32 : List ℕ → ℕ
of_be32 (a ∷ b ∷ c ∷ d ∷ []) = a * 2 ^ 24 + b * 2 ^ 16 + c * 2 ^ 8 + d
of_be32 _ = 0

-- `len > 65536 || len < 0`, of an `int32_t` given by its bit pattern.
abbrev pub is_invalid : ℕ → Bool
is_invalid w = ltb 65536 w && ltb w (2 ^ 31) || leb (2 ^ 31) w

-- One round of the loop of `onMessage`.
pub data Round : Type 0 where
  wait : Round
  reject : Round
  deliver : List ℕ → Buffer → Round

unfoldable pub take_message : Buffer → ℕ → Option Round
take_message b len = do
  b' ← retrieve b header_len
  let message = slice b'.buffer b'.reader_index len
  b'' ← retrieve b' len
  some (deliver message b'')

unfoldable pub round : Buffer → Option Round
round b =
    let len = of_be32 (slice b.buffer b.reader_index header_len) in
    if leb header_len (readable_bytes b)
    then (if is_invalid len
        then some reject
        else (if leb (add_size len header_len) (readable_bytes b)
            then take_message b len
            else some wait))
    else some wait

-- What `onMessage` did: the messages handed to the callback, whether it called `shutdown`, and the
-- buffer that it leaves.
pub record Handled : Type 0 where
  pub messages : List (List ℕ)
  pub closing : Bool
  pub rest : Buffer

abbrev pub deliver_first : List ℕ → Handled → Handled
deliver_first m h = record h { messages = m ∷ h.messages }

unfoldable pub on_message_loop : ℕ → Buffer → Option Handled
on_message_loop zero b = none
on_message_loop (suc fuel) b = round b >>= λ r. elim r [
  | wait ↦ some (record { messages = []; closing = false; rest = b })
  | reject ↦ some (record { messages = []; closing = true; rest = b })
  | deliver m b' ↦ on_message_loop fuel b' >>= λ h. some (deliver_first m h)
]

-- Each round that goes on takes at least the header away.
unfoldable pub on_message : Buffer → Option Handled
on_message b = on_message_loop (suc (readable_bytes b)) b

-- `send` up to the call of the connection: the buffer that it builds.
unfoldable pub encode : List ℕ → Option Buffer
encode message = do b ← append create message; prepend b (to_be32 (length message % 2 ^ 32))
