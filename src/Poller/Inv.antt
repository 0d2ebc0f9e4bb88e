-- ===== src/Poller/Inv.antt =====
-- The array and the channels of the poller agree (irono/net/Poller.cc).
use irono.Base.{
  ℕ, ◌≡◌, ◌≢◌, ◌⊎◌, inl, inr, true, none, some, ◌==◌, if◌then◌else◌, get_elem?, negsuc, update,
  arith, Bool-cases, sym, ==_iff,
}
use irono.Channel.{Channel, is_none_event}
use irono.Poller.{Poller, PollFd, original_fd}

-- The entry at `i` is that of the channel: it has the channel's mask, and the channel knows where
-- it is. One with an empty mask is ignored.
pub record Serves (p : Poller) (ptr i : ℕ) (pfd : PollFd) : Type 0 where
  pub same_fd : original_fd pfd.fd ≡ (p.heap ptr).fd
  pub same_mask : pfd.events ≡ (p.heap ptr).events
  pub at_index : (p.heap ptr).index ≡ some i
  pub in_map : p.channels (p.heap ptr).fd ≡ some ptr
  pub ignored : is_none_event (p.heap ptr) ≡ true → pfd.fd ≡ negsuc (p.heap ptr).fd

abbrev pub IsEntry : Poller → ℕ → ℕ → PollFd → Type 0
IsEntry p ptr i pfd = (get_elem? p.pollfds i ≡ some pfd) × Serves p ptr i pfd

pub record IsSynced (p : Poller) : Type 0 where
  -- What is found under a descriptor is a channel of that descriptor with an entry in the array.
  pub found :
      (fd ptr : ℕ)
      → p.channels fd ≡ some ptr
      → ((p.heap ptr).fd ≡ fd) × (i : ℕ) × (pfd : PollFd) × IsEntry p ptr i pfd
  -- Every entry is that of a channel.
  pub owned :
      (i : ℕ) (pfd : PollFd) → get_elem? p.pollfds i ≡ some pfd → (ptr : ℕ) × Serves p ptr i pfd

-- Two channels do not share an entry.
pub one_owner : (p : Poller) (i j k : ℕ) (e : PollFd) → Serves p j i e → Serves p k i e → j ≡ k
one_owner p i j k e s t = ground (arith, s.same_fd, t.same_fd, s.in_map, t.in_map)

module _ (p p' : Poller) (ptr i : ℕ) (c : Channel) (pfd : PollFd) where
  -- One channel changes, under its own descriptor, together with the entry at its index.
  pub record IsChanged : Type 0 where
    pub heap : (j : ℕ) → p'.heap j ≡ update p.heap ptr c j
    pub channels : (j : ℕ) → p'.channels j ≡ update p.channels c.fd (some ptr) j
    pub pollfds :
        (j : ℕ) → get_elem? p'.pollfds j ≡ (if j == i then some pfd else get_elem? p.pollfds j)
    pub fd : (p.heap ptr).fd ≡ c.fd
    pub free : (p.channels c.fd ≡ none) ⊎ (p.channels c.fd ≡ some ptr)
    pub index : ((p.heap ptr).index ≡ none) ⊎ ((p.heap ptr).index ≡ some i)
    pub old : (e : PollFd) → get_elem? p.pollfds i ≡ some e → Serves p ptr i e
    pub new_fd : original_fd pfd.fd ≡ c.fd
    pub new_mask : pfd.events ≡ c.events
    pub new_index : c.index ≡ some i
    pub new_ignored : is_none_event c ≡ true → pfd.fd ≡ negsuc c.fd

  pub IsChanged-Serves : IsChanged → Serves p' ptr i pfd
  IsChanged-Serves h = record {
    same_fd = ground (arith, h.heap ptr, h.new_fd);
    same_mask = ground (arith, h.heap ptr, h.new_mask);
    at_index = ground (arith, h.heap ptr, h.new_index);
    in_map = ground (arith, h.heap ptr, h.channels (p'.heap ptr).fd);
    ignored = λ e. ground (arith, h.heap ptr, h.new_ignored);
  }

  there : (j k : ℕ) (e : PollFd) → IsChanged → j ≢ ptr → Serves p j k e → Serves p' j k e
  there j k e h ne s = record {
    same_fd = ground (arith, h.heap j, s.same_fd);
    same_mask = ground (arith, h.heap j, s.same_mask);
    at_index = ground (arith, h.heap j, s.at_index);
    in_map = ground (arith, h.heap j, h.channels (p.heap j).fd, s.in_map, h.free);
    ignored = λ n. ground (arith, h.heap j, s.ignored);
  }

  abbrev FoundAt : ℕ → ℕ → Type 0
  FoundAt fd j = ((p'.heap j).fd ≡ fd) × (k : ℕ) × (e : PollFd) × IsEntry p' j k e

  found_here :
      IsChanged → IsSynced p → (fd j : ℕ) → p'.channels fd ≡ some j → j ≡ ptr → FoundAt fd j
  found_here h v fd j e q =
      let same : c.fd ≡ fd = ground (arith, h.channels fd, v.found fd ptr, h.fd) in
      rw q (
        ground (arith, same, h.heap ptr),
        i,
        pfd,
        (ground (arith, h.pollfds i), IsChanged-Serves h),
      )

  found_there :
      IsChanged → IsSynced p → (fd j : ℕ) → p'.channels fd ≡ some j → j ≢ ptr → FoundAt fd j
  found_there h v fd j e ne =
      let was : p.channels fd ≡ some j = ground (arith, h.channels fd) in
      let (same, k, old, (at, s)) = v.found fd j was in
      let apart : k ≢ i =
        λ q. ne (one_owner p i j ptr old (rw (sym q) s) (h.old old (rw (sym q) at))) in
      (ground (arith, h.heap j), k, old, (ground (arith, h.pollfds k), there j k old h ne s))

  owned_here :
      IsChanged
      → (k : ℕ) (e : PollFd) → get_elem? p'.pollfds k ≡ some e
      → k ≡ i
      → (j : ℕ) × Serves p' j k e
  owned_here h k e at q =
      let same : pfd ≡ e = ground (arith, h.pollfds k) in
      (ptr, rw (q, sym same) (IsChanged-Serves h))

  owned_there :
      IsChanged
      → IsSynced p
      → (k : ℕ) (e : PollFd) → get_elem? p'.pollfds k ≡ some e
      → k ≢ i
      → (j : ℕ) × Serves p' j k e
  owned_there h v k e at ne =
      let (j, s) = v.owned k e (ground (arith, h.pollfds k)) in
      let apart : j ≢ ptr = λ q. ground (arith, s.at_index, h.index) in (j, there j k e h apart s)

  pub IsChanged-IsSynced : IsChanged → IsSynced p → IsSynced p'
  IsChanged-IsSynced h v = record {
    found = λ fd j e. elim (Bool-cases (j == ptr)) [
      | inl q ↦ found_here h v fd j e ((==_iff j ptr).0 q)
      | inr q ↦ found_there h v fd j e (λ r. ground arith)
    ];
    owned = λ k e at. elim (Bool-cases (k == i)) [
      | inl q ↦ owned_here h k e at ((==_iff k i).0 q)
      | inr q ↦ owned_there h v k e at (λ r. ground arith)
    ];
  }
