-- ===== src/Codec/Tests.antt =====
-- Two small messages and the beginning of a third (irono/example/chat/codec.h).
use irono.Base.{ℕ, ◌≡◌, refl, false, some, List, [], ◌∷◌, ◌++◌, arith, replicate, Returns}
use irono.Buffer.{Buffer}
use irono.Buffer.Inv.{IsValid, content}
use irono.Codec.{Handled, to_be32, on_message}
use irono.Codec.Reference.{Agrees, on_message-decode}
use irono.Codec.Decode.{short}
use irono.Codec.Receive.{Receives, AllSmall, frames, on_message_lem}

abbrev messages : List (List ℕ)
messages = (1 ∷ 2 ∷ []) ∷ [] ∷ []

abbrev arrived : Buffer
arrived = record {
  buffer = replicate 8 0 ++ (0 ∷ 0 ∷ 0 ∷ 2 ∷ 1 ∷ 2 ∷ 0 ∷ 0 ∷ 0 ∷ 0 ∷ 9 ∷ []);
  reader_index = 8;
  writer_index = 19;
}

arrived-IsValid : IsValid arrived
arrived-IsValid = omega arith

messages-AllSmall : AllSmall messages
messages-AllSmall = (omega arith, (omega arith, tt))

arrived-content : content arrived ≡ frames messages ++ (9 ∷ [])
unfolding to_be32
arrived-content = refl

on_message_lem_example :
    (h : Handled) × (on_message arrived ≡ some h) × Receives messages false (9 ∷ []) h
on_message_lem_example =
    on_message_lem arrived messages arrived-IsValid messages-AllSmall (short (9 ∷ []) (omega arith))
      arrived-content

on_message-decode_example : Returns (on_message arrived) (Agrees 12 arrived)
on_message-decode_example = on_message-decode arrived arrived-IsValid
