-- ===== src/ChatServer/Inv.antt =====
-- What a thread has sent is the beginning of the list that it took
-- (irono/example/chat/server_threaded_efficient.cc).
use irono.Base.{
  ℕ, zero, suc, ◌+◌, ◌<◌, ◌≤◌, get_elem?-past_end, ◌≡◌, refl, sym, ap, ◌∙◌, subst, Bool, true, List,
  [], ◌∷◌, ◌++◌, length, get_elem?, take, some, ◌==◌, update, arith, Bool-cases, inl, inr,
}
use irono.ChatServer.{
  ChatServer, Sender, create, none_holds, copy_on_write, on_connection, get_connection_list,
  send_one, leave,
}
use irono.ChatServer.Schedule.{Step, connection, begins, sends, leaves, Reach, here, next}

abbrev pub All : (Sender → Type 0) → List Sender → Type 0
All P [] = Unit {0}
All P (r ∷ rs) = P r × All P rs

All-middle :
    (P : Sender → Type 0) (before : List Sender) (r : Sender) (after : List Sender)
    → All P (before ++ (r ∷ after))
    → All P before × P r × All P after
All-middle P [] r after h = (tt, h.0, h.1)
All-middle P (x ∷ before) r after (h, hs) =
    let (b, m, a) = All-middle P before r after hs in ((h, b), m, a)

All-append :
    (P : Sender → Type 0) (before after : List Sender)
    → All P before
    → All P after
    → All P (before ++ after)
All-append P [] after b a = a
All-append P (x ∷ before) after (h, b) a = (h, All-append P before after b a)

-- The thread's list is in use, nobody has changed it since, and what was sent is its beginning.
pub record Holds (lists : ℕ → List ℕ) (next : ℕ) (r : Sender) : Type 0 where
  pub in_use : r.list < next
  pub unchanged : lists r.list ≡ r.at_start
  pub sent : r.sent ≡ take r.position r.at_start
  pub bound : r.position ≤ length r.at_start

abbrev pub IsComplete : Sender → Type 0
IsComplete r = r.sent ≡ r.at_start

pub record Inv (s : ChatServer) : Type 0 where
  pub in_use : s.connections < s.next
  pub senders : All (Holds s.lists s.next) s.senders
  pub done : All IsComplete s.done

take-next :
    (xs : List ℕ) (i c : ℕ) → get_elem? xs i ≡ some c → take (i + 1) xs ≡ take i xs ++ (c ∷ [])
take-next [] i c h = cc
take-next (x ∷ xs) zero c h = ground arith
take-next (x ∷ xs) (suc i) c h = ground (arith, take-next xs i c h)

take_all : (xs : List ℕ) → take (length xs) xs ≡ xs
take_all [] = refl
take_all (x ∷ xs) = ap (λ ys. x ∷ ys) (take_all xs)

-- A write to a list that no thread holds.
write_unheld :
    (lists : ℕ → List ℕ) (n a : ℕ) (xs : List ℕ) (rs : List Sender)
    → none_holds a rs ≡ true
    → All (Holds lists n) rs
    → All (Holds (update lists a xs) n) rs
write_unheld lists n a xs [] e h = tt
write_unheld lists n a xs (r ∷ rs) e (h, hs) = elim (Bool-cases (r.list == a)) [
  | inl q ↦ ground arith
  | inr q ↦ (
    record {
      in_use = h.in_use;
      unchanged = ground (arith, h.unchanged);
      sent = h.sent;
      bound = h.bound;
    },
    write_unheld lists n a xs rs (ground arith) hs,
  )
]

-- A write to a new list.
write_new :
    (lists : ℕ → List ℕ) (n : ℕ) (xs ys : List ℕ) (rs : List Sender)
    → All (Holds lists n) rs
    → All (Holds (update (update lists n xs) n ys) (n + 1)) rs
write_new lists n xs ys [] h = tt
write_new lists n xs ys (r ∷ rs) (h, hs) = (
  record {
    in_use = omega (arith, h.in_use);
    unchanged = ground (arith, h.unchanged, h.in_use);
    sent = h.sent;
    bound = h.bound;
  },
  write_new lists n xs ys rs hs,
)

pub connection-Inv :
    (s : ChatServer) (connected : Bool) (c : ℕ) → Inv s → Inv (on_connection s connected c)
unfolding on_connection copy_on_write
connection-Inv s connected c v = elim (Bool-cases (none_holds s.connections s.senders)) [
  | inl e ↦ rw e (record {
    in_use = v.in_use;
    senders = write_unheld s.lists s.next s.connections _ s.senders e v.senders;
    done = v.done;
  })
  | inr e ↦ rw e (record {
    in_use = omega arith;
    senders = write_new s.lists s.next _ _ s.senders v.senders;
    done = v.done;
  })
]

Step-Inv : {s s' : ChatServer} → Step s s' → Inv s → Inv s'
unfolding get_connection_list send_one leave
Step-Inv {s = s} (connection connected c) v = connection-Inv s connected c v
Step-Inv {s = s} begins v = record {
  in_use = v.in_use;
  senders =
      (record { in_use = v.in_use; unchanged = refl; sent = refl; bound = omega arith }, v.senders);
  done = v.done;
}
Step-Inv {s = s} (sends before r c after e at) v =
    let (b, h, a) =
      All-middle (Holds s.lists s.next) before r after
        (subst (All (Holds s.lists s.next)) e v.senders) in
    record {
      in_use = v.in_use;
      senders = All-append (Holds s.lists s.next) before _ b (
        record {
          in_use = h.in_use;
          unchanged = h.unchanged;
          sent =
              ap (λ xs. xs ++ (c ∷ [])) h.sent
              ∙ sym (
                  take-next r.at_start r.position c
                    (subst (λ xs. get_elem? xs r.position ≡ some c) h.unchanged at));
          bound = ground (arith, h.unchanged, get_elem?-past_end r.at_start r.position);
        },
        a,
      );
      done = v.done;
    }
Step-Inv {s = s} (leaves before r after e at_end) v =
    let (b, h, a) =
      All-middle (Holds s.lists s.next) before r after
        (subst (All (Holds s.lists s.next)) e v.senders) in
    record {
      in_use = v.in_use;
      senders = All-append (Holds s.lists s.next) before after b a;
      done = (
        h.sent ∙ ap (λ k. take k r.at_start) (at_end ∙ ap length h.unchanged) ∙ take_all r.at_start,
        v.done,
      );
    }

pub Reach-Inv : {s : ChatServer} → Reach s → Inv s
unfolding create
Reach-Inv here = record { in_use = omega arith; senders = tt; done = tt }
Reach-Inv (next r t) = Step-Inv t (Reach-Inv r)
