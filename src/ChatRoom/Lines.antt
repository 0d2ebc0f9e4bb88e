-- ===== src/ChatRoom/Lines.antt =====
-- The server decodes the lines that a client wrote (irono/example/chat/client.cc, codec.h).
use irono.Base.{
  ℕ, ◌≤◌, ◌≡◌, refl, true, false, Option, none, some, List, [], ◌∷◌, length, arith, Returns,
  Returns-bind, Returns-mono, ◌∙◌, subst,
}
use irono.Buffer.{Buffer}
use irono.Buffer.Inv.{IsValid, content}
use irono.Codec.{Handled, on_message}
use irono.Codec.Receive.{frames, AllSmall, Receives}
use irono.ChatRoom.{send}
use irono.ChatRoom.Delivery.{Sent, send_lem, frames-append, AllSmall-append, frames-Receives}
use irono.ChatRoom.Client.{
  ChatClient, create, on_connection, write, write_to, connects, closes, reads, Reach, begins,
  goes_on,
}

record Inv (k : ChatClient) : Type 0 where
  framed : (c : ℕ) → k.sent c ≡ frames (k.lines c)
  small : (c : ℕ) → AllSmall (k.lines c)

write_to-Inv :
    (k : ChatClient) (conn : Option ℕ) (line : List ℕ)
    → length line ≤ 65536
    → Inv k
    → Returns (write_to k conn line) Inv
write_to-Inv k none line few v = v
write_to-Inv k (some c) line few v =
    Returns-bind (send k.is_connected k.sent c line) _ (Sent k.is_connected (c ∷ []) line k.sent)
      Inv (send_lem k.is_connected k.sent c line (omega arith))
      (λ sent h. record {
        framed = λ d. ground (arith, h d, v.framed d, frames-append (k.lines c) line);
        small = λ d. ground (arith, v.small d, AllSmall-append (k.lines c) line (v.small c) few);
      })

Reach-Inv : (k : ChatClient) → Reach k → Inv k
unfolding create on_connection write
Reach-Inv _ begins = record { framed = λ c. refl; small = λ c. tt }
Reach-Inv _ (goes_on {k} r (connects true c)) =
    let v = Reach-Inv k r in record { framed = v.framed; small = v.small }
Reach-Inv _ (goes_on {k} r (connects false c)) =
    let v = Reach-Inv k r in record { framed = v.framed; small = v.small }
Reach-Inv _ (goes_on {k} r (closes c)) =
    let v = Reach-Inv k r in record { framed = v.framed; small = v.small }
Reach-Inv k' (goes_on {k} r (reads line _ few e)) =
    subst (λ o. Returns o Inv) e (write_to-Inv k k.connection line few (Reach-Inv k r))

-- A client that was given lines of at most 65536 bytes, while its connections came and went: each such
-- line can be written, and the server, whose valid buffer for a connection holds the bytes that the
-- client's connection took on, hands over just the lines that were written while that was the connection
-- and it was `kConnected`, each
-- once and in their order, does not close, and has no byte left.
pub lines_lem :
    (k : ChatClient) (c : ℕ) (b : Buffer)
    → Reach k
    → IsValid b
    → content b ≡ k.sent c
    → ((line : List ℕ) → length line ≤ 65536 → Returns (write k line) (λ _. Unit {0}))
      × ((h : Handled) × (on_message b ≡ some h) × Receives (k.lines c) false [] h)
unfolding write
lines_lem k c b r valid e =
    let v = Reach-Inv k r in
    (
      λ line few.
          Returns-mono (write_to k k.connection line) Inv (λ _. Unit {0})
            (write_to-Inv k k.connection line few v) (λ _ _. tt),
      frames-Receives b (k.lines c) valid (v.small c) (e ∙ v.framed c),
    )
