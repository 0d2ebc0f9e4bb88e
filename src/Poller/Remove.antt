-- ===== src/Poller/Remove.antt =====
-- `removeChannel` (irono/net/Poller.cc).
use irono.Base.{
  ℕ, suc, ◌+◌, ◌-◌, ◌<◌, ◌≡◌, ◌≢◌, refl, sym, ◌∙◌, true, false, Bool, none, some, List, [], ◌∷◌,
  length, get_elem?, set, take, ◌==◌, if◌then◌else◌, update, arith, inl, inr, Returns, Bool-cases,
  get_elem?-past_end, get_elem?-set, length-set, length-take, get_elem?-take, get_elem?-in_range,
  ==_iff,
}
use irono.Channel.{Events, is_none_event}
use irono.Poller.{
  Poller, PollFd, original_fd, is_ignored_fd, same_events, same_bit, swap_pop, move_last, take_out,
  set_index, remove_channel,
}
use irono.Poller.Inv.{IsEntry, IsSynced}
use irono.Poller.Removed.{IsRemoved-IsSynced}

get_elem?-pop :
    (xs : List PollFd) (m j : ℕ)
    → length xs ≡ suc m
    → get_elem? (take m xs) j ≡ (if j == m then none else get_elem? xs j)
get_elem?-pop xs m j h = ground (arith, get_elem?-take m xs j, get_elem?-past_end xs j)

get_elem?-moved :
    (xs : List PollFd) (i m : ℕ) (x last : PollFd) (j : ℕ)
    → length xs ≡ suc m
    → i < m
    → get_elem? (take m (set (set xs i last) m x)) j
      ≡ (if j == m then none else (if j == i then some last else get_elem? xs j))
get_elem?-moved xs i m x last j h lt =
    let once = length-set xs i last in
    let twice = length-set (set xs i last) m x in
    ground (
      arith,
      get_elem?-pop (set (set xs i last) m x) m j (twice ∙ once ∙ h),
      get_elem?-set (set xs i last) m x j,
      get_elem?-set xs i last j,
    )

length-moved :
    (xs : List PollFd) (i m : ℕ) (x last : PollFd)
    → length xs ≡ suc m
    → length (take m (set (set xs i last) m x)) + 1 ≡ length xs
length-moved xs i m x last h = omega (
  arith,
  length-take m (set (set xs i last) m x),
  length-set (set xs i last) m x,
  length-set xs i last,
)

same_bit_refl : (b : Bool) → same_bit b b ≡ true
unfolding same_bit
same_bit_refl true = refl
same_bit_refl false = refl

same_events_refl : (e : Events) → same_events e e ≡ true
unfolding same_events
same_events_refl e = ground (
  arith,
  same_bit_refl e.pollin,
  same_bit_refl e.pollpri,
  same_bit_refl e.pollout,
  same_bit_refl e.pollerr,
  same_bit_refl e.pollhup,
  same_bit_refl e.pollnval,
  same_bit_refl e.pollrdhup,
)

-- The channel is not found any more, and there is one entry less.
abbrev pub IsGone : Poller → ℕ → Poller → Type 0
IsGone p ptr p' =
    IsSynced p' × (p'.channels (p.heap ptr).fd ≡ none) × (length p'.pollfds + 1 ≡ length p.pollfds)

erase : Poller → ℕ → Poller
erase p fd = record p { channels = update p.channels fd none }

pop_last :
    (p : Poller) (ptr m : ℕ) (pfd : PollFd)
    → IsSynced p
    → IsEntry p ptr m pfd
    → length p.pollfds ≡ suc m
    → IsGone p ptr (record (erase p (p.heap ptr).fd) { pollfds = take m p.pollfds })
unfolding erase
pop_last p ptr m pfd v entry h = (
  IsRemoved-IsSynced p _ ptr ptr m m pfd
      (record {
        heap = λ j ne. ground arith;
        channels = λ j. refl;
        pollfds = λ j. ground (arith, get_elem?-pop p.pollfds m j h);
        removed = (pfd, entry);
        last_one = entry;
      })
      v,
  ground arith,
  omega (arith, length-take m p.pollfds),
)

-- What `move_last` does when the last entry is `last`, the entry of the channel at `moved`.
move_last-moves :
    (p : Poller) (ptr i m moved : ℕ) (pfd last : PollFd)
    → IsSynced p
    → IsEntry p ptr i pfd
    → IsEntry p moved m last
    → length p.pollfds ≡ suc m
    → i < m
    → Returns (move_last (erase p (p.heap ptr).fd) i pfd) (IsGone p ptr)
unfolding move_last erase set_index swap_pop
move_last-moves p ptr i m moved pfd last v (entry, t) (at_end, s) h lt =
    let other : (p.heap moved).fd ≢ (p.heap ptr).fd =
      λ r. ground (arith, s.in_map, t.in_map, s.at_index, t.at_index) in
    let here : update p.channels (p.heap ptr).fd none (original_fd last.fd) ≡ some moved =
      ground (arith, s.same_fd, s.in_map) in
    let m_lem : length p.pollfds - 1 ≡ m = omega arith in
    rw (m_lem, at_end, here)
      (
        IsRemoved-IsSynced p _ ptr moved i m last
            (record {
              heap = λ j ne. refl;
              channels = λ j. refl;
              pollfds = λ j. get_elem?-moved p.pollfds i m pfd last j h lt;
              removed = (pfd, (entry, t));
              last_one = (at_end, s);
            })
            v,
        ground arith,
        length-moved p.pollfds i m pfd last h,
      )

move_last-IsGone :
    (p : Poller) (ptr i m : ℕ) (pfd : PollFd)
    → IsSynced p
    → IsEntry p ptr i pfd
    → length p.pollfds ≡ suc m
    → i < m
    → Returns (move_last (erase p (p.heap ptr).fd) i pfd) (IsGone p ptr)
move_last-IsGone p ptr i m pfd v entry h lt =
    let (last, at_end) = get_elem?-in_range p.pollfds m (omega arith) in
    let (moved, s) = v.owned m last at_end in
    move_last-moves p ptr i m moved pfd last v entry (at_end, s) h lt

take_out-IsGone :
    (p : Poller) (ptr i m : ℕ) (pfd : PollFd)
    → IsSynced p
    → IsEntry p ptr i pfd
    → length p.pollfds ≡ suc m
    → i < suc m
    → Returns (take_out (erase p (p.heap ptr).fd) i pfd) (IsGone p ptr)
unfolding take_out erase
take_out-IsGone p ptr i m pfd v entry len in_range =
    let m_lem : length p.pollfds - 1 ≡ m = omega arith in
    elim (Bool-cases (i == m)) [
      | inl q ↦
          let at_end = (==_iff i m).0 q in
          rw (m_lem, q) (pop_last p ptr m pfd v (rw (sym at_end) entry) len)
      | inr q ↦
          let not_last : (i == length p.pollfds - 1) ≡ false = rw m_lem q in
          rw not_last (move_last-IsGone p ptr i m pfd v entry len (ground arith))
    ]

has_last :
    (xs : List PollFd) (i : ℕ) (e : PollFd)
    → get_elem? xs i ≡ some e
    → (m : ℕ) × (length xs ≡ suc m)
has_last [] i e h = cc
has_last (x ∷ xs) i e h = (length xs, refl)

pub remove_channel-IsGone :
    (p : Poller) (ptr : ℕ)
    → IsSynced p
    → p.channels (p.heap ptr).fd ≡ some ptr
    → is_none_event (p.heap ptr) ≡ true
    → Returns (remove_channel p ptr) (IsGone p ptr)
unfolding remove_channel erase
remove_channel-IsGone p ptr v here none_left =
    let (same, i, pfd, (entry, s)) = v.found (p.heap ptr).fd ptr here in
    let self : (ptr == ptr) ≡ true = ground arith in
    let turned : is_ignored_fd pfd.fd (p.heap ptr).fd ≡ true =
      rw (s.ignored none_left) (ground arith) in
    let same_mask : same_events pfd.events (p.heap ptr).events ≡ true =
      rw s.same_mask (same_events_refl (p.heap ptr).events) in
    let (m, len) = has_last p.pollfds i pfd entry in
    let in_range : i < suc m = ground (arith, get_elem?-past_end p.pollfds i) in
    rw (here, self, none_left, s.at_index, entry, turned, same_mask)
      (take_out-IsGone p ptr i m pfd v (entry, s) len in_range)
