-- ===== src/ChatRoom/Delivery.antt =====
-- A client of the chat decodes just the messages since it came (irono/example/chat).
use irono.Base.{
  ℕ, zero, suc, ◌≤◌, ◌<◌, ◌^◌, ◌≡◌, refl, sym, ap, ◌∙◌, Bool, ◌&&◌, true, false, some, List, [],
  ◌∷◌, ◌++◌, length, drop, if◌then◌else◌, arith, Returns, Returns-bind, Returns-mono, subst,
  append_assoc, append-nil, length-append, drop_all, drop-append_within,
}
use irono.Buffer.{Buffer}
use irono.Buffer.Inv.{IsValid, content}
use irono.Codec.{Handled, encode, on_message}
use irono.Codec.Header.{frame}
use irono.Codec.Encode.{encode-frame}
use irono.Codec.Decode.{short}
use irono.Codec.Receive.{frames, AllSmall, Receives, on_message_lem}
use irono.ChatServer.Connections.{mem, mem-insert, mem-erase}
use irono.ChatRelay.Sets.{is_set, is_set-insert, is_set-erase}
use irono.ChatRoom.{ChatRoom, create, on_connection, send, send_all, on_string_message}
use irono.ChatRoom.Talk.{set_connected, comes_up, goes_down, shuts, says, Reach, begins, goes_on}

-- Each of the connections that is `kConnected` got the frame of the message, and no other got anything.
abbrev pub Sent : (ℕ → Bool) → List ℕ → List ℕ → (ℕ → List ℕ) → (ℕ → List ℕ) → Type 0
Sent flags cs m sent sent' =
    (k : ℕ) → sent' k ≡ (if mem k cs && flags k then sent k ++ frame m else sent k)

pub send_lem :
    (flags : ℕ → Bool) (sent : ℕ → List ℕ) (c : ℕ) (m : List ℕ)
    → length m < 2 ^ 32
    → Returns (send flags sent c m) (Sent flags (c ∷ []) m sent)
unfolding send
send_lem flags sent c m small =
    Returns-bind (encode m) _ (λ b. IsValid b × (content b ≡ frame m)) (Sent flags (c ∷ []) m sent)
      (encode-frame m small) (λ b (v, e) k. ground (arith, e))

send_all_lem :
    (flags : ℕ → Bool) (cs : List ℕ) (m : List ℕ) (sent : ℕ → List ℕ)
    → length m < 2 ^ 32
    → is_set cs ≡ true
    → Returns (send_all flags cs m sent) (Sent flags cs m sent)
unfolding send_all
send_all_lem flags [] m sent small set = λ k. refl
send_all_lem flags (c ∷ cs) m sent small set =
    Returns-bind (send flags sent c m) _ (Sent flags (c ∷ []) m sent) (Sent flags (c ∷ cs) m sent)
      (send_lem flags sent c m small)
      (λ sent' h.
        Returns-mono (send_all flags cs m sent') (Sent flags cs m sent')
          (Sent flags (c ∷ cs) m sent) (send_all_lem flags cs m sent' small (ground arith))
          (λ sent'' h' k. ground (arith, h k, h' k)))

pub record Inv (s : ChatRoom) : Type 0 where
  pub set : is_set s.connections ≡ true
  pub here : (c : ℕ) → mem c s.connections ≡ true → s.seen c ≡ true
  pub new : (c : ℕ) → s.seen c ≡ false → s.sent c ≡ []
  pub after : (c : ℕ) → s.joined c ≤ length s.messages
  pub got :
      (c : ℕ)
      → mem c s.connections ≡ true
      → s.is_connected c ≡ true
      → s.sent c ≡ frames (drop (s.joined c) s.messages)
  pub small : AllSmall s.messages

pub frames-append :
    (ms : List (List ℕ)) (m : List ℕ) → frames (ms ++ (m ∷ [])) ≡ frames ms ++ frame m
frames-append [] m = append-nil (frame m)
frames-append (x ∷ ms) m =
    ap (◌++◌ (frame x)) (frames-append ms m) ∙ sym (append_assoc (frame x) (frames ms) (frame m))

pub AllSmall-append :
    (ms : List (List ℕ)) (m : List ℕ) → AllSmall ms → length m ≤ 65536 → AllSmall (ms ++ (m ∷ []))
AllSmall-append [] m h k = (k, tt)
AllSmall-append (x ∷ ms) m (h, hs) k = (h, AllSmall-append ms m hs k)

AllSmall-drop : (n : ℕ) (ms : List (List ℕ)) → AllSmall ms → AllSmall (drop n ms)
AllSmall-drop zero ms h = h
AllSmall-drop (suc n) [] h = tt
AllSmall-drop (suc n) (m ∷ ms) (h, hs) = AllSmall-drop n ms hs

comes_up-Inv :
    (s : ChatRoom) (c : ℕ)
    → s.seen c ≡ false
    → Inv s
    → Inv (on_connection (set_connected s c true) true c)
unfolding on_connection
comes_up-Inv s c fresh v =
    let out : mem c s.connections ≡ false = ground (arith, v.here c) in
    record {
      set = is_set-insert c s.connections out v.set;
      here = λ k h. ground (arith, v.here k, mem-insert c k s.connections);
      new = λ k h. ground (arith, v.new k);
      after = λ k. ground (arith, v.after k);
      got = λ k h f. ground (
        arith,
        v.got k,
        mem-insert c k s.connections,
        v.new c,
        drop_all s.messages (length s.messages) refl,
      );
      small = v.small;
    }

goes_down-Inv :
    (s : ChatRoom) (c : ℕ) → Inv s → Inv (on_connection (set_connected s c false) false c)
unfolding on_connection
goes_down-Inv s c v = record {
  set = is_set-erase c s.connections v.set;
  here = λ k h. ground (arith, v.here k, mem-erase c k s.connections);
  new = v.new;
  after = v.after;
  got = λ k h f. ground (arith, v.got k, mem-erase c k s.connections);
  small = v.small;
}

shuts-Inv : (s : ChatRoom) (c : ℕ) → Inv s → Inv (set_connected s c false)
shuts-Inv s c v = record {
  set = v.set;
  here = v.here;
  new = v.new;
  after = v.after;
  got = λ k h f. ground (arith, v.got k);
  small = v.small;
}

says-Inv :
    (s : ChatRoom) (m : List ℕ) → length m ≤ 65536 → Inv s → Returns (on_string_message s m) Inv
unfolding on_string_message
says-Inv s m few v =
    Returns-bind (send_all s.is_connected s.connections m s.sent) _
      (Sent s.is_connected s.connections m s.sent) Inv
      (send_all_lem s.is_connected s.connections m s.sent (omega arith) v.set)
      (λ sent h. record {
        set = v.set;
        here = v.here;
        new = λ k e. ground (arith, h k, v.new k, v.here k);
        after = λ k. omega (arith, v.after k, length-append s.messages (m ∷ []));
        got = λ k e f. ground (
          arith,
          h k,
          v.got k,
          drop-append_within (s.joined k) s.messages (m ∷ []) (v.after k),
          frames-append (drop (s.joined k) s.messages) m,
        );
        small = AllSmall-append s.messages m v.small few;
      })

Reach-Inv : (s : ChatRoom) → Reach s → Inv s
unfolding create
Reach-Inv _ begins = record {
  set = refl;
  here = λ c h. cc;
  new = λ c h. refl;
  after = λ c. omega arith;
  got = λ c h f. cc;
  small = tt;
}
Reach-Inv _ (goes_on {s} r (comes_up c fresh)) = comes_up-Inv s c fresh (Reach-Inv s r)
Reach-Inv _ (goes_on {s} r (goes_down c up)) = goes_down-Inv s c (Reach-Inv s r)
Reach-Inv _ (goes_on {s} r (shuts c)) = shuts-Inv s c (Reach-Inv s r)
Reach-Inv s' (goes_on {s} r (says m _ few e)) =
    subst (λ o. Returns o Inv) e (says-Inv s m few (Reach-Inv s r))

-- A receiver that gets the frames of messages hands over these messages, and nothing is left.
pub frames-Receives :
    (b : Buffer) (ms : List (List ℕ))
    → IsValid b
    → AllSmall ms
    → content b ≡ frames ms
    → (h : Handled) × (on_message b ≡ some h) × Receives ms false [] h
frames-Receives b ms v small e =
    on_message_lem b ms v small (short [] (omega arith)) (e ∙ sym (append-nil (frames ms)))

-- Whatever connections have come, were shut down and have gone, and whatever messages of at most 65536
-- bytes were said, in any order in the one loop of the server: a further such message can be sent to all
-- connections. The client of a connection in the set that is `kConnected`, whose valid buffer holds the
-- bytes that the connection took on, hands over just the messages that came since it
-- joined, each once and in their order, does not close, and has no byte left. So all clients that are
-- there get the same messages in the same order.
pub delivers_messages :
    (s : ChatRoom) (c : ℕ) (b : Buffer)
    → Reach s
    → mem c s.connections ≡ true
    → s.is_connected c ≡ true
    → IsValid b
    → content b ≡ s.sent c
    → ((m : List ℕ) → length m ≤ 65536 → Returns (on_string_message s m) (λ _. Unit {0}))
      × ((h : Handled) × (on_message b ≡ some h)
          × Receives (drop (s.joined c) s.messages) false [] h)
delivers_messages s c b r up state valid e =
    let v = Reach-Inv s r in
    (
      λ m few.
          Returns-mono (on_string_message s m) Inv (λ _. Unit {0}) (says-Inv s m few v) (λ _ _. tt),
      frames-Receives b (drop (s.joined c) s.messages) valid
          (AllSmall-drop (s.joined c) s.messages v.small) (e ∙ v.got c up state),
    )
