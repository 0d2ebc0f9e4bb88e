-- ===== src/Poller/Poll.antt =====
-- `poll` and `fillActiveChannels` (irono/net/Poller.cc).
use irono.Base.{
  ℕ, zero, suc, ◌≡◌, refl, sym, ap, ◌∙◌, true, false, some, List, [], ◌∷◌, get_elem?, ◌==◌, update,
  arith, inl, inr, Returns, Returns-bind, Bool-cases, pos,
}
use irono.Channel.{Events, is_none}
use irono.Poller.{Poller, PollFd, Stored, original_fd, store_revents, fill_active_channels, poll}
use irono.Poller.Inv.{Serves, IsSynced}

-- The same entry, but for `revents`.
abbrev IsLike : PollFd → PollFd → Type 0
IsLike e e' = (e'.fd ≡ e.fd) × (e'.events ≡ e.events)

-- Only `revents` differ.
record IsSimilar (p p' : Poller) : Type 0 where
  pub channels : (fd : ℕ) → p'.channels fd ≡ p.channels fd
  pub fd : (j : ℕ) → (p'.heap j).fd ≡ (p.heap j).fd
  pub events : (j : ℕ) → (p'.heap j).events ≡ (p.heap j).events
  pub index : (j : ℕ) → (p'.heap j).index ≡ (p.heap j).index
  pub forth :
      (i : ℕ) (e : PollFd)
      → get_elem? p.pollfds i ≡ some e
      → (e' : PollFd) × (get_elem? p'.pollfds i ≡ some e') × IsLike e e'
  pub back :
      (i : ℕ) (e' : PollFd)
      → get_elem? p'.pollfds i ≡ some e'
      → (e : PollFd) × (get_elem? p.pollfds i ≡ some e) × IsLike e e'

similar-Serves :
    (p p' : Poller) (ptr i : ℕ) (e e' : PollFd)
    → IsSimilar p p'
    → IsLike e e'
    → Serves p ptr i e
    → Serves p' ptr i e'
similar-Serves p p' ptr i e e' h like s = record {
  same_fd = ground (arith, h.fd ptr, like, s.same_fd);
  same_mask = ground (arith, h.events ptr, like, s.same_mask);
  at_index = ground (arith, h.index ptr, s.at_index);
  in_map = ground (arith, h.fd ptr, h.channels (p.heap ptr).fd, s.in_map);
  ignored = λ n. ground (arith, h.events ptr, h.fd ptr, like, s.ignored);
}

similar-IsSynced : (p p' : Poller) → IsSimilar p p' → IsSynced p → IsSynced p'
similar-IsSynced p p' h v = record {
  found = λ fd ptr here.
      let (same, i, e, (at, s)) = v.found fd ptr (sym (h.channels fd) ∙ here) in
      let (e', at', like) = h.forth i e at in
      (h.fd ptr ∙ same, i, e', (at', similar-Serves p p' ptr i e e' h like s));
  owned = λ i e' at'.
      let (e, at, like) = h.back i e' at' in
      let (ptr, s) = v.owned i e at in (ptr, similar-Serves p p' ptr i e e' h like s);
}

with_revents : Poller → ℕ → Events → Poller
with_revents p ptr revents = record p {
  heap = update p.heap ptr (record (p.heap ptr) { revents = revents });
}

with_revents-IsSimilar :
    (p : Poller) (ptr : ℕ) (revents : Events) → IsSimilar p (with_revents p ptr revents)
unfolding with_revents
with_revents-IsSimilar p ptr revents = record {
  channels = λ fd. refl;
  fd = λ j. ground arith;
  events = λ j. ground arith;
  index = λ j. ground arith;
  forth = λ i e at. (e, at, (refl, refl));
  back = λ i e at. (e, at, (refl, refl));
}

stored_forth :
    (xs : List PollFd) (rs : List Events) (i : ℕ) (e : PollFd)
    → get_elem? xs i ≡ some e
    → (e' : PollFd) × (get_elem? (store_revents xs rs) i ≡ some e') × IsLike e e'
unfolding store_revents
stored_forth [] rs i e at = cc
stored_forth (x ∷ xs) [] i e at = (e, at, (refl, refl))
stored_forth (x ∷ xs) (r ∷ rs) zero e at =
    (record x { revents = r }, refl, (ground arith, ground arith))
stored_forth (x ∷ xs) (r ∷ rs) (suc i) e at = stored_forth xs rs i e at

stored_back :
    (xs : List PollFd) (rs : List Events) (i : ℕ) (e' : PollFd)
    → get_elem? (store_revents xs rs) i ≡ some e'
    → (e : PollFd) × (get_elem? xs i ≡ some e) × IsLike e e'
unfolding store_revents
stored_back [] rs i e' at = cc
stored_back (x ∷ xs) [] i e' at = (e', at, (refl, refl))
stored_back (x ∷ xs) (r ∷ rs) zero e' at = (x, refl, (ground arith, ground arith))
stored_back (x ∷ xs) (r ∷ rs) (suc i) e' at = stored_back xs rs i e' at

with_stored : Poller → List Events → Poller
with_stored p rs = record p { pollfds = store_revents p.pollfds rs }

with_stored-IsSimilar : (p : Poller) (rs : List Events) → IsSimilar p (with_stored p rs)
unfolding with_stored
with_stored-IsSimilar p rs = record {
  channels = λ fd. refl;
  fd = λ j. refl;
  events = λ j. refl;
  index = λ j. refl;
  forth = stored_forth p.pollfds rs;
  back = stored_back p.pollfds rs;
}

-- An entry with events is that of a channel in the map, and it is not ignored.
Listed : Poller → PollFd → Type 0
Listed p e =
    is_none e.revents ≡ false
    → (ptr : ℕ) × (e.fd ≡ pos (p.heap ptr).fd) × (p.channels (p.heap ptr).fd ≡ some ptr)

AllListed : Poller → List PollFd → Type 0
AllListed p [] = Unit {0}
AllListed p (e ∷ es) = Listed p e × AllListed p es

Listed-with_revents :
    (p : Poller) (ptr : ℕ) (revents : Events) (e : PollFd)
    → Listed p e
    → Listed (with_revents p ptr revents) e
unfolding Listed with_revents
Listed-with_revents p ptr revents e h some_events =
    let (other, same, here) = h some_events in (other, ground (arith, same), ground (arith, here))

AllListed-with_revents :
    (p : Poller) (ptr : ℕ) (revents : Events) (es : List PollFd)
    → AllListed p es
    → AllListed (with_revents p ptr revents) es
unfolding AllListed
AllListed-with_revents p ptr revents [] h = tt
AllListed-with_revents p ptr revents (e ∷ es) (h, hs) =
    (Listed-with_revents p ptr revents e h, AllListed-with_revents p ptr revents es hs)

abbrev pub KeepsSynced : (Poller × List ℕ) → Type 0
KeepsSynced r = IsSynced (r.0)

fill-KeepsSynced :
    (p : Poller) (es : List PollFd) (n : ℕ)
    → IsSynced p
    → AllListed p es
    → Returns (fill_active_channels p es n) KeepsSynced
unfolding fill_active_channels AllListed Listed with_revents
fill-KeepsSynced p [] n v h = v
fill-KeepsSynced p (e ∷ es) zero v h = v
fill-KeepsSynced p (e ∷ es) (suc n) v (h, hs) = elim (Bool-cases (is_none e.revents)) [
  | inl q ↦ rw q (fill-KeepsSynced p es (suc n) v hs)
  | inr q ↦
      let (ptr, same, here) = h q in
      let self : ((p.heap ptr).fd == (p.heap ptr).fd) ≡ true = ground arith in
      let p' = with_revents p ptr e.revents in
      let v' = similar-IsSynced p p' (with_revents-IsSimilar p ptr e.revents) v in
      rw (q, same, here, self)
        (Returns-bind (fill_active_channels p' es n) _ KeepsSynced KeepsSynced
          (fill-KeepsSynced p' es n v' (AllListed-with_revents p ptr e.revents es hs)) (λ r k. k))
]

-- poll(2) stores no events for an entry with a negative descriptor.
abbrev pub Answers : Poller → Stored → Type 0
Answers p s =
    (i : ℕ) (e : PollFd)
    → get_elem? (store_revents p.pollfds s.revents) i ≡ some e
    → is_none e.revents ≡ false
    → (fd : ℕ) × (e.fd ≡ pos fd)

entry-Listed :
    (p : Poller) (i : ℕ) (e : PollFd) (fd : ℕ)
    → IsSynced p
    → get_elem? p.pollfds i ≡ some e
    → e.fd ≡ pos fd
    → (ptr : ℕ) × (e.fd ≡ pos (p.heap ptr).fd) × (p.channels (p.heap ptr).fd ≡ some ptr)
entry-Listed p i e fd v at open_fd =
    let (ptr, s) = v.owned i e at in
    (ptr, open_fd ∙ ap pos (ap original_fd (sym open_fd) ∙ s.same_fd), s.in_map)

all-AllListed :
    (p : Poller) (es : List PollFd)
    → ((i : ℕ) (e : PollFd) → get_elem? es i ≡ some e → Listed p e)
    → AllListed p es
unfolding AllListed
all-AllListed p [] h = tt
all-AllListed p (e ∷ es) h = (h zero e refl, all-AllListed p es (λ i. h (suc i)))

pub poll-KeepsSynced :
    (p : Poller) (s : Stored) → IsSynced p → Answers p s → Returns (poll p (some s)) KeepsSynced
unfolding poll with_stored Listed
poll-KeepsSynced p s v answers =
    let p' = with_stored p s.revents in
    let v' = similar-IsSynced p p' (with_stored-IsSimilar p s.revents) v in
    let listed = all-AllListed p' p'.pollfds (λ i e at some_events.
      let (fd, open_fd) = answers i e at some_events in entry-Listed p' i e fd v' at open_fd) in
    elim (Bool-cases (s.num_events == 0)) [
      | inl q ↦ rw q v'
      | inr q ↦ rw q (fill-KeepsSynced p' p'.pollfds s.num_events v' listed)
    ]
