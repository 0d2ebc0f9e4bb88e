-- ===== src/Poller/Update.antt =====
-- `updateChannel` (irono/net/Poller.cc).
use irono.Base.{
  ℕ, ◌<◌, ◌≡◌, ◌⊎◌, refl, ap, ◌∙◌, true, false, Option, none, some, length, set, ◌==◌, update,
  arith, inl, inr, Returns, Bool-cases, get_elem?-append, get_elem?-set, get_elem?-set_self, subst,
  Returns-mono, get_elem?-past_end, ℤ, pos, negsuc, ◌||◌,
}
use irono.Channel.{Channel, Events, Change, change_events, is_none, is_none_event, none_event}
use irono.Poller.{
  Poller, PollFd, original_fd, is_fd, is_ignored_fd, change_channel, update_channel,
  update_channel_at, add_new, change_existing, change_entry, set_index,
}
use irono.Poller.Inv.{IsEntry, IsSynced, IsChanged, IsChanged-IsSynced, IsChanged-Serves}

-- A channel whose mask has just changed: everything else agrees, and its own entry does but for the
-- mask.
unfoldable pub with_mask : Poller → ℕ → Events → Poller
with_mask p ptr events = record p {
  heap = update p.heap ptr (record (p.heap ptr) { events = events });
}

add_new-IsSynced :
    (p : Poller) (ptr : ℕ) (events : Events)
    → IsSynced p
    → (p.heap ptr).index ≡ none
    → p.channels (p.heap ptr).fd ≡ none
    → is_none events ≡ false
    → Returns (add_new (with_mask p ptr events) ptr) IsSynced
unfolding add_new with_mask set_index
add_new-IsSynced p ptr events v fresh free some_events =
    let self : (ptr == ptr) ≡ true = ground arith in
    rw (self, free)
      (IsChanged-IsSynced p _ ptr (length p.pollfds)
        (record (p.heap ptr) { events = events; index = some (length p.pollfds) })
        (record { fd = pos (p.heap ptr).fd; events = events; revents = none_event })
        (record {
          heap = λ j. ground arith;
          channels = λ j. ground arith;
          pollfds = λ j. get_elem?-append p.pollfds _ j;
          fd = refl;
          free = inl free;
          index = inl fresh;
          old = λ e at. ground (arith, get_elem?-past_end p.pollfds (length p.pollfds));
          new_fd = refl;
          new_mask = refl;
          new_index = refl;
          new_ignored = λ e. ground arith;
        })
        v)

known_fd : (z : ℤ) (fd : ℕ) → original_fd z ≡ fd → (is_fd z fd || is_ignored_fd z fd) ≡ true
known_fd (pos n) fd e = ground arith
known_fd (negsuc n) fd e = ground arith

turned :
    (pfd : PollFd) (c : Channel)
    → original_fd pfd.fd ≡ c.fd
    → original_fd (change_entry c pfd).fd ≡ c.fd
unfolding change_entry
turned pfd c e = elim (Bool-cases (is_none_event c)) [ inl n ↦ rw n refl | inr n ↦ rw n e ]

is_changed :
    (p : Poller) (ptr i : ℕ) (pfd : PollFd) (c : Channel)
    → IsSynced p
    → IsEntry p ptr i pfd
    → (p.heap ptr).fd ≡ c.fd
    → c.index ≡ some i
    → IsChanged p
        (record p { pollfds = set p.pollfds i (change_entry c pfd); heap = update p.heap ptr c })
        ptr
        i
        c
        (change_entry c pfd)
unfolding change_entry
is_changed p ptr i pfd c v (entry, s) same at =
    let in_range : i < length p.pollfds = ground (arith, get_elem?-past_end p.pollfds i) in
    record {
      heap = λ j. refl;
      channels = λ j. ground (arith, s.in_map);
      pollfds = λ j. get_elem?-set p.pollfds i _ j in_range;
      fd = same;
      free = inr (subst (λ fd. p.channels fd ≡ some ptr) same s.in_map);
      index = inr s.at_index;
      old = λ e at'. ground (arith, s);
      new_fd = turned pfd c (s.same_fd ∙ same);
      new_mask = refl;
      new_index = at;
      new_ignored = λ e. ground arith;
    }

-- The channel has kept its entry, which has the new mask.
abbrev pub IsKept : Poller → ℕ → ℕ → PollFd → Channel → Poller → Type 0
IsKept p ptr i pfd c q =
    IsSynced q × ((q.heap ptr).fd ≡ (p.heap ptr).fd) × IsEntry q ptr i (change_entry c pfd)

pub change_existing-IsKept :
    (p : Poller) (ptr i : ℕ) (pfd : PollFd) (events : Events)
    → IsSynced p
    → IsEntry p ptr i pfd
    → Returns
        (change_existing (with_mask p ptr events) ptr i)
        (IsKept p ptr i pfd (record (p.heap ptr) { events = events }))
unfolding change_existing with_mask
change_existing-IsKept p ptr i pfd events v (entry, s) =
    let self : (ptr == ptr) ≡ true = ground arith in
    let known = known_fd pfd.fd (p.heap ptr).fd s.same_fd in
    let c = record (p.heap ptr) { events = events } in
    let in_range : i < length p.pollfds = ground (arith, get_elem?-past_end p.pollfds i) in
    let q = record p {
      pollfds = set p.pollfds i (change_entry c pfd);
      heap = update p.heap ptr c;
    } in
    let changed : IsChanged p q ptr i c (change_entry c pfd) =
      is_changed p ptr i pfd c v (entry, s) refl s.at_index in
    rw (self, s.in_map, self, entry, known)
      (
        IsChanged-IsSynced p q ptr i c (change_entry c pfd) changed v,
        ap (λ x. x.fd) (changed.heap ptr) ∙ rw self refl,
        (
          get_elem?-set_self p.pollfds i _ in_range,
          IsChanged-Serves p q ptr i c (change_entry c pfd) changed,
        ),
      )

pub update_channel-at :
    (p : Poller) (ptr : ℕ) (index : Option ℕ)
    → (p.heap ptr).index ≡ index
    → update_channel p ptr ≡ update_channel_at p ptr index
unfolding update_channel
update_channel-at p ptr index e = ap (update_channel_at p ptr) e

pub index_kept :
    (p : Poller) (ptr : ℕ) (events : Events)
    → ((with_mask p ptr events).heap ptr).index ≡ (p.heap ptr).index
unfolding with_mask
index_kept p ptr events = ground arith

-- A channel that the poller does not know has no index, and its descriptor is free.
abbrev pub CanChange : Poller → Change → ℕ → Type 0
CanChange p change ptr =
    (((p.heap ptr).index ≡ none)
      × (p.channels (p.heap ptr).fd ≡ none)
      × (is_none (change_events change (p.heap ptr).events) ≡ false))
    ⊎ (p.channels (p.heap ptr).fd ≡ some ptr)

pub change_channel-IsSynced :
    (p : Poller) (change : Change) (ptr : ℕ)
    → IsSynced p
    → CanChange p change ptr
    → Returns (change_channel p change ptr) IsSynced
unfolding change_channel with_mask update_channel_at
change_channel-IsSynced p change ptr v (inl (fresh, free, some_events)) =
    let mask = change_events change (p.heap ptr).events in
    let e = update_channel-at (with_mask p ptr mask) ptr none (index_kept p ptr mask ∙ fresh) in
    rw e (add_new-IsSynced p ptr mask v fresh free some_events)
change_channel-IsSynced p change ptr v (inr here) =
    let mask = change_events change (p.heap ptr).events in
    let (same, i, pfd, (entry, s)) = v.found (p.heap ptr).fd ptr here in
    let e =
      update_channel-at (with_mask p ptr mask) ptr (some i) (index_kept p ptr mask ∙ s.at_index) in
    rw e (
      Returns-mono _ _ IsSynced (change_existing-IsKept p ptr i pfd mask v (entry, s)) (λ q k. k.0))
