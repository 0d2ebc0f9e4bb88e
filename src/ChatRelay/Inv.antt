-- ===== src/ChatRelay/Inv.antt =====
-- Every loop gets every message, and passes it on to its connections
-- (irono/example/chat/server_threaded_highperformance.cc).
use irono.Base.{
  ℕ, ◌≤◌, ◌≡◌, refl, true, false, none, some, List, [], ◌∷◌, ◌++◌, length, drop, update, arith,
  Bool-cases, inl, inr, append_assoc, length-append, subst, drop_all, drop-append_within,
}
use irono.ChatServer.{insert}
use irono.ChatServer.Connections.{mem, mem-insert, mem-erase}
use irono.ChatRelay.{
  ChatRelay, create, is_null, thread_init, on_connection, on_string_message, distribute_message,
  instance_of,
}
use irono.ChatRelay.Sets.{is_set, is_set-insert, is_set-erase, push_all_lem}
use irono.ChatRelay.Schedule.{
  Step, registers, comes_up, goes_down, says, distributes, Reach, here, next,
}

pub record Inv (s : ChatRelay) : Type 0 where
  pub loops_set : is_set s.loops ≡ true
  -- A registered loop has a set, and has distributed or will distribute all messages since.
  pub known : (l : ℕ) → mem l s.loops ≡ true → is_null (s.local l) ≡ false
  pub early : (l : ℕ) → s.since l ≤ length s.messages
  pub queued :
      (l : ℕ) → mem l s.loops ≡ true → drop (s.since l) s.messages ≡ s.distributed l ++ s.pending l
  pub unused : (l : ℕ) → mem l s.loops ≡ false → (s.distributed l ≡ []) × (s.pending l ≡ [])
  -- A connection is in the set of its own thread only, and has got what that has distributed since.
  pub local_set : (l : ℕ) → is_set (instance_of (s.local l)) ≡ true
  pub at_home : (l c : ℕ) → mem c (instance_of (s.local l)) ≡ true → s.home c ≡ some l
  pub new : (c : ℕ) → s.home c ≡ none → s.received c ≡ []
  pub after : (c l : ℕ) → s.home c ≡ some l → s.joined c ≤ length (s.distributed l)
  pub got :
      (l c : ℕ)
      → mem c (instance_of (s.local l)) ≡ true
      → s.received c ≡ drop (s.joined c) (s.distributed l)

registers-Inv :
    (s : ChatRelay) (l : ℕ)
    → is_null (s.local l) ≡ true
    → Inv s
    → Inv (record s {
      local = update s.local l (some []);
      loops = insert l s.loops;
      since = update s.since l (length s.messages);
    })
registers-Inv s l fresh v =
    let out : mem l s.loops ≡ false = ground (arith, v.known l) in
    record {
      loops_set = is_set-insert l s.loops out v.loops_set;
      known = λ k h. ground (arith, v.known k, mem-insert l k s.loops);
      early = λ k. ground (arith, v.early k);
      queued = λ k h. ground (
        arith,
        v.queued k,
        mem-insert l k s.loops,
        v.unused l,
        out,
        drop_all s.messages (length s.messages) refl,
      );
      unused = λ k h. ground (arith, v.unused k, mem-insert l k s.loops);
      local_set = λ k. ground (arith, v.local_set k);
      at_home = λ k c h. ground (arith, v.at_home k c);
      new = v.new;
      after = v.after;
      got = λ k c h. ground (arith, v.got k c);
    }

comes_up-Inv : (s : ChatRelay) (l c : ℕ) → s.home c ≡ none → Inv s → Inv (on_connection s l true c)
unfolding on_connection
comes_up-Inv s l c fresh v =
    let list = instance_of (s.local l) in
    let out : mem c list ≡ false = ground (arith, v.at_home l c) in
    record {
      loops_set = v.loops_set;
      known = λ k h. ground (arith, v.known k);
      early = v.early;
      queued = v.queued;
      unused = v.unused;
      local_set = λ k. ground (arith, v.local_set k, is_set-insert c list out (v.local_set l));
      at_home = λ k d h. ground (arith, v.at_home k d, mem-insert c d list, fresh);
      new = λ d h. ground (arith, v.new d);
      after = λ d k h. ground (arith, v.after d k);
      got = λ k d h. ground (
        arith,
        v.got k d,
        mem-insert c d list,
        v.at_home k d,
        fresh,
        v.new c,
        drop_all (s.distributed l) (length (s.distributed l)) refl,
      );
    }

goes_down-Inv : (s : ChatRelay) (l c : ℕ) → Inv s → Inv (on_connection s l false c)
unfolding on_connection
goes_down-Inv s l c v =
    let list = instance_of (s.local l) in
    record {
      loops_set = v.loops_set;
      known = λ k h. ground (arith, v.known k);
      early = v.early;
      queued = v.queued;
      unused = v.unused;
      local_set = λ k. ground (arith, v.local_set k, is_set-erase c list (v.local_set l));
      at_home = λ k d h. ground (arith, v.at_home k d, mem-erase c d list);
      new = v.new;
      after = v.after;
      got = λ k d h. ground (arith, v.got k d, mem-erase c d list);
    }

says-Inv : (s : ChatRelay) (m : ℕ) → Inv s → Inv (on_string_message s m)
unfolding on_string_message
says-Inv s m v = record {
  loops_set = v.loops_set;
  known = v.known;
  early = λ l. omega (arith, v.early l, length-append s.messages (m ∷ []));
  queued = λ l h. ground (
    arith,
    push_all_lem s.loops m s.pending l v.loops_set,
    v.queued l,
    drop-append_within (s.since l) s.messages (m ∷ []) (v.early l),
    append_assoc (s.distributed l) (s.pending l) (m ∷ []),
  );
  unused = λ l h. ground (arith, push_all_lem s.loops m s.pending l v.loops_set, v.unused l);
  local_set = v.local_set;
  at_home = v.at_home;
  new = v.new;
  after = v.after;
  got = v.got;
}

distributes-Inv :
    (s : ChatRelay) (l m : ℕ) (rest : List ℕ)
    → s.pending l ≡ m ∷ rest
    → Inv s
    → Inv (distribute_message s l m rest)
unfolding distribute_message
distributes-Inv s l m rest first v =
    let list = instance_of (s.local l) in
    let mine = v.local_set l in
    record {
      loops_set = v.loops_set;
      known = λ k h. ground (arith, v.known k);
      early = v.early;
      queued =
          λ k h. ground (arith, v.queued k, first, append_assoc (s.distributed l) (m ∷ []) rest);
      unused = λ k h. ground (arith, v.unused k, first);
      local_set = λ k. ground (arith, v.local_set k);
      at_home = λ k c h. ground (arith, v.at_home k c);
      new = λ c h. ground (arith, v.new c, push_all_lem list m s.received c mine, v.at_home l c);
      after = λ c k h. ground (arith, v.after c k, length-append (s.distributed l) (m ∷ []));
      got = λ k c h. ground (
        arith,
        v.got k c,
        push_all_lem list m s.received c mine,
        v.at_home l c,
        v.at_home k c,
        v.after c l,
        drop-append_within (s.joined c) (s.distributed l) (m ∷ []),
      );
    }

Step-Inv : {s s' : ChatRelay} → Step s s' → Inv s → Inv s'
unfolding thread_init
Step-Inv {s = s} (registers {s' = s'} l e) v = elim (Bool-cases (is_null (s.local l))) [
  | inl q ↦ subst Inv (ground (arith, e, q)) (registers-Inv s l q v)
  | inr q ↦ ground (arith, e, q)
]
Step-Inv {s = s} (comes_up l c fresh) v = comes_up-Inv s l c fresh v
Step-Inv {s = s} (goes_down l c at) v = goes_down-Inv s l c v
Step-Inv {s = s} (says m) v = says-Inv s m v
Step-Inv {s = s} (distributes l m rest first) v = distributes-Inv s l m rest first v

pub Reach-Inv : {s : ChatRelay} → Reach s → Inv s
unfolding create
Reach-Inv here = record {
  loops_set = refl;
  known = λ l h. cc;
  early = λ l. omega arith;
  queued = λ l h. cc;
  unused = λ l h. (refl, refl);
  local_set = λ l. refl;
  at_home = λ l c h. cc;
  new = λ c h. refl;
  after = λ c l h. cc;
  got = λ l c h. cc;
}
Reach-Inv (next r t) = Step-Inv t (Reach-Inv r)

-- In every schedule of the I/O threads a registered loop has every message that came since it was
-- registered, once and in order: first those that it has distributed, then those in its queue. A
-- connection in the set of a thread is in no other thread's set, and was sent exactly the messages
-- that its thread has distributed since it came up, in order.
pub relayed_in_order :
    (s : ChatRelay)
    → Reach s
    → ((l : ℕ)
        → mem l s.loops ≡ true
        → drop (s.since l) s.messages ≡ s.distributed l ++ s.pending l)
      × ((l c : ℕ)
          → mem c (instance_of (s.local l)) ≡ true
          → (s.received c ≡ drop (s.joined c) (s.distributed l))
            × ((k : ℕ) → mem c (instance_of (s.local k)) ≡ true → k ≡ l))
relayed_in_order s r =
    let v = Reach-Inv r in
    (v.queued, λ l c h. (v.got l c h, λ k h'. ground (arith, v.at_home l c, v.at_home k c)))
