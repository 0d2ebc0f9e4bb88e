-- ===== src/ChatServer/Delivery.antt =====
-- Who gets a message (irono/example/chat/server_threaded_efficient.cc).
use irono.Base.{
  ℕ, ◌≡◌, ◌⊎◌, inl, inr, refl, Bool, true, false, List, [], ◌∷◌, some, length, get_elem?, take,
  ◌==◌, if◌then◌else◌, arith, Bool-cases, ap, sym, ◌∙◌, ltb, ltb→lt, subst, get_elem?-in_range,
}
use irono.ChatServer.{ChatServer, Sender, insert, erase, copy_on_write, on_connection, none_holds}
use irono.ChatServer.Connections.{mem, mem-insert, mem-erase}
use irono.ChatServer.Schedule.{Reach}
use irono.ChatServer.Inv.{All, Holds, IsComplete, Reach-Inv, connection-Inv}

-- The iterator is at a connection of the list, or at its end.
abbrev pub CanGoOn : ChatServer → Sender → Type 0
CanGoOn s r =
    ((c : ℕ) × (get_elem? (s.lists r.list) r.position ≡ some c))
    ⊎ (r.position ≡ length (s.lists r.list))

abbrev pub IsSending : ChatServer → Sender → Type 0
IsSending s r = (r.sent ≡ take r.position r.at_start) × CanGoOn s r

All-map :
    (P Q : Sender → Type 0) (rs : List Sender) → ((r : Sender) → P r → Q r) → All P rs → All Q rs
All-map P Q [] f h = tt
All-map P Q (r ∷ rs) f (h, hs) = (f r h, All-map P Q rs f hs)

Holds-IsSending : (s : ChatServer) (r : Sender) → Holds s.lists s.next r → IsSending s r
Holds-IsSending s r h =
    let same = ap length h.unchanged in
    (
      h.sent,
      elim (Bool-cases (ltb r.position (length (s.lists r.list)))) [
        | inl e ↦ inl (get_elem?-in_range (s.lists r.list) r.position (ltb→lt _ _ e))
        | inr e ↦ inr (ground (arith, e, h.bound, same))
      ],
    )

-- In every schedule of the I/O threads, with connections coming and going at any time: a thread
-- that has left the loop has sent its message to exactly the connections that the set had when the
-- thread took it, in order; one in the loop has sent it to the first of them, and its iterator is
-- valid.
pub delivered_to_all :
    (s : ChatServer) → Reach s → All IsComplete s.done × All (IsSending s) s.senders
delivered_to_all s r =
    let v = Reach-Inv r in
    (v.done, All-map (Holds s.lists s.next) (IsSending s) s.senders (Holds-IsSending s) v.senders)

current_lem :
    (s : ChatServer) (connected : Bool) (c : ℕ)
    → let s' = on_connection s connected c in
      s'.lists s'.connections
      ≡ (if connected then insert c (s.lists s.connections) else erase c (s.lists s.connections))
unfolding on_connection copy_on_write
current_lem s connected c = elim (Bool-cases (none_holds s.connections s.senders)) [
  | inl e ↦ rw e (ground arith)
  | inr e ↦ rw e (ground arith)
]

senders_lem :
    (s : ChatServer) (connected : Bool) (c : ℕ) → (on_connection s connected c).senders ≡ s.senders
unfolding on_connection copy_on_write
senders_lem s connected c = elim (Bool-cases (none_holds s.connections s.senders)) [
  | inl e ↦ rw e refl
  | inr e ↦ rw e refl
]

mem-current :
    (s : ChatServer) (connected : Bool) (c d : ℕ)
    → mem d
        (if connected then insert c (s.lists s.connections) else erase c (s.lists s.connections))
      ≡ (if d == c then connected else mem d (s.lists s.connections))
mem-current s true c d = ground (arith, mem-insert c d (s.lists s.connections))
mem-current s false c d = ground (arith, mem-erase c d (s.lists s.connections))

-- In every reachable state, when a connection comes up or goes down, the set that the next message goes
-- to has changed for that connection only, and no thread's list has changed.
pub on_connection_lem :
    (s : ChatServer) (connected : Bool) (c : ℕ)
    → Reach s
    → let s' = on_connection s connected c in
      ((d : ℕ)
        → mem d (s'.lists s'.connections)
          ≡ (if d == c then connected else mem d (s.lists s.connections)))
      × (s'.senders ≡ s.senders)
      × All (λ r. s'.lists r.list ≡ s.lists r.list) s.senders
on_connection_lem s connected c r =
    let v = Reach-Inv r in
    let s' = on_connection s connected c in
    let v' = connection-Inv s connected c v in
    let kept = subst (All (Holds s'.lists s'.next)) (senders_lem s connected c) v'.senders in
    (
      λ d. ap (mem d) (current_lem s connected c) ∙ mem-current s connected c d,
      senders_lem s connected c,
      both s.lists s'.lists s.next s'.next s.senders v.senders kept,
    )
  where
    both :
        (f g : ℕ → List ℕ) (m n : ℕ) (rs : List Sender)
        → All (Holds f m) rs
        → All (Holds g n) rs
        → All (λ r. g r.list ≡ f r.list) rs
    both f g m n [] h k = tt
    both f g m n (r ∷ rs) (h, hs) (k, ks) = (k.unchanged ∙ sym h.unchanged, both f g m n rs hs ks)
