-- ===== src/Poller/Removed.antt =====
-- A poller whose last entry has taken the place of a removed one (irono/net/Poller.cc).
use irono.Base.{
  ℕ, ◌≡◌, ◌≢◌, sym, ap, ◌∙◌, none, some, get_elem?, ◌==◌, if◌then◌else◌, update, arith, inl, inr,
  subst, Bool-cases, ==_iff,
}
use irono.Poller.{Poller, PollFd}
use irono.Poller.Inv.{Serves, IsEntry, IsSynced, one_owner}

module _ (p p' : Poller) (ptr moved i m : ℕ) (last : PollFd) where
  -- The entry at `i` is gone, and the last one, at `m`, has taken its place.
  pub record IsRemoved : Type 0 where
    pub heap :
        (j : ℕ)
        → j ≢ ptr
        → p'.heap j ≡ update p.heap moved (record (p.heap moved) { index = some i }) j
    pub channels : (j : ℕ) → p'.channels j ≡ update p.channels (p.heap ptr).fd none j
    pub pollfds :
        (j : ℕ)
        → get_elem? p'.pollfds j
          ≡ (if j == m then none else (if j == i then some last else get_elem? p.pollfds j))
    pub removed : (pfd : PollFd) × IsEntry p ptr i pfd
    pub last_one : IsEntry p moved m last

  stay : (j k : ℕ) (e : PollFd) → IsRemoved → j ≢ ptr → j ≢ moved → Serves p j k e → Serves p' j k e
  stay j k e h ne ne' s =
      let (pfd, (entry, t)) = h.removed in
      let same : p'.heap j ≡ p.heap j = ground (arith, h.heap j ne) in
      record {
        same_fd = ground (arith, same, s.same_fd);
        same_mask = ground (arith, same, s.same_mask);
        at_index = ground (arith, same, s.at_index);
        in_map = ground (arith, same, h.channels (p.heap j).fd, s.in_map, t.in_map);
        ignored = λ n. ground (arith, same, s.ignored);
      }

  move : IsRemoved → moved ≢ ptr → Serves p' moved i last
  move h ne =
      let (pfd, (entry, t)) = h.removed in
      let s = (h.last_one).1 in
      let new : p'.heap moved ≡ record (p.heap moved) { index = some i } =
        ground (arith, h.heap moved ne) in
      record {
        same_fd = ground (arith, new, s.same_fd);
        same_mask = ground (arith, new, s.same_mask);
        at_index = ground (arith, new);
        in_map = ground (arith, new, h.channels (p.heap moved).fd, s.in_map, t.in_map);
        ignored = λ n. ground (arith, new, s.ignored);
      }

  abbrev FoundAt : ℕ → ℕ → Type 0
  FoundAt fd j = ((p'.heap j).fd ≡ fd) × (k : ℕ) × (e : PollFd) × IsEntry p' j k e

  found_other :
      (fd j k : ℕ) (e : PollFd)
      → IsRemoved
      → j ≢ ptr
      → (p.heap j).fd ≡ fd
      → IsEntry p j k e
      → k ≢ i
      → FoundAt fd j
  found_other fd j k e h ne same (at, s) apart = elim (Bool-cases (k == m)) [
    | inl q ↦
        let at_end : k ≡ m = (==_iff k m).0 q in
        let last_same : last ≡ e = ground (arith, (h.last_one).0) in
        let owner : j ≡ moved =
          one_owner p m j moved e (rw (sym at_end) s) (rw (sym last_same) (h.last_one).1) in
        let ne'' : moved ≢ ptr = λ r. ne (owner ∙ r) in
        let new : p'.heap moved ≡ record (p.heap moved) { index = some i } =
          ground (arith, h.heap moved ne'') in
        let same' : (p.heap moved).fd ≡ fd = rw (sym owner) same in
        rw owner
          (ground (arith, new, same'), i, last, (ground (arith, h.pollfds i, at_end), move h ne''))
    | inr q ↦
        let ne' : j ≢ moved = λ r. ground (arith, s.at_index, ((h.last_one).1).at_index) in
        (ground (arith, h.heap j ne), k, e, (ground (arith, h.pollfds k), stay j k e h ne ne' s))
  ]

  found : IsRemoved → IsSynced p → (fd j : ℕ) → p'.channels fd ≡ some j → FoundAt fd j
  found h v fd j e =
      let (pfd, (entry, t)) = h.removed in
      let was : p.channels fd ≡ some j = ground (arith, h.channels fd) in
      let other : (p.heap ptr).fd ≢ fd = λ r. ground (arith, h.channels fd) in
      let (same, k, old, (at, s)) = v.found fd j was in
      let ne : j ≢ ptr = λ r. other (ap (λ x. (p.heap x).fd) (sym r) ∙ same) in
      let apart : k ≢ i = λ q. ne (
        one_owner p i j ptr old (rw (sym q) s)
          (subst (λ x. Serves p ptr i x) (ground (arith, at, entry)) t)) in
      found_other fd j k old h ne same (at, s) apart

  owned :
      IsRemoved
      → IsSynced p
      → (k : ℕ) (e : PollFd) → get_elem? p'.pollfds k ≡ some e
      → (j : ℕ) × Serves p' j k e
  owned h v k e at =
      let (pfd, (entry, t)) = h.removed in
      let s = (h.last_one).1 in
      let inside : k ≢ m = λ q. ground (arith, h.pollfds k) in
      elim (Bool-cases (k == i)) [
        | inl q ↦
            let at_i : k ≡ i = (==_iff k i).0 q in
            let same : last ≡ e = ground (arith, h.pollfds k) in
            let ne : moved ≢ ptr = λ r. inside (
              at_i
              ∙ two_indices i m (subst (λ x. (p.heap x).index ≡ some m) r s.at_index) t.at_index) in
            (moved, rw (at_i, sym same) (move h ne))
        | inr q ↦
            let (j, o) = v.owned k e (ground (arith, h.pollfds k)) in
            let ne : j ≢ ptr = λ r. ground (arith, o.at_index, t.at_index) in
            let ne' : j ≢ moved = λ r. ground (arith, o.at_index, s.at_index) in
            (j, stay j k e h ne ne' o)
      ]
    where
      two_indices : (i m : ℕ) → (p.heap ptr).index ≡ some m → (p.heap ptr).index ≡ some i → i ≡ m
      two_indices i m a b = ground (arith, a, b)

  pub IsRemoved-IsSynced : IsRemoved → IsSynced p → IsSynced p'
  IsRemoved-IsSynced h v = record { found = found h v; owned = owned h v }
