-- ===== src/TimerQueue/Cancel.antt =====
-- Cancelling a timer (`TimerQueue::cancelInLoop` of irono/net/TimerQueue.cc).
use irono.Base.{
  ℕ, ◌≡◌, ◌≢◌, refl, true, false, not, ◌&&◌, none, some, List, length, ◌==◌, if◌then◌else◌, arith,
  update_ne, Bool-cases, inl, inr, Returns, Returns_of_eq,
}
use irono.TimerQueue.SortedSet.{
  Key, mem, insert, erase, key_eq, mem-erase, mem_congr, length-erase, erase-IsSorted,
}
use irono.TimerQueue.{
  Timer, TimerQueue, TimerId, entry, active_entry, free, cancel_active, cancel_in_loop,
}
use irono.TimerQueue.Inv.{Inv, key}

-- The queue without the timer `t` that stands at `ptr`.
abbrev removed : TimerQueue → Timer → ℕ → TimerQueue
removed q t ptr =
    free
      (record q {
        timers = erase (entry t ptr) q.timers;
        active_timers = erase (active_entry t ptr) q.active_timers;
      })
      ptr

module _ (q : TimerQueue) (t : Timer) (ptr : ℕ) where
  removed-Inv :
      Inv q
      → q.heap ptr ≡ some t
      → mem (entry t ptr) q.timers ≡ true
      → mem (active_entry t ptr) q.active_timers ≡ true
      → Inv (removed q t ptr)
  removed-Inv v at listed live = record {
    timers_sorted = erase-IsSorted (entry t ptr) q.timers v.timers_sorted;
    active_sorted = erase-IsSorted (active_entry t ptr) q.active_timers v.active_sorted;
    sizes = ground (
      arith,
      length-erase (entry t ptr) q.timers listed,
      length-erase (active_entry t ptr) q.active_timers live,
      v.sizes,
    );
    scheduled = λ w p h.
        let was : mem (key w p) q.timers ≡ true =
          ground (arith, mem-erase (key w p) (entry t ptr) q.timers v.timers_sorted) in
        let (t', a, b, c, d) = v.scheduled w p was in
        let differs : p ≢ ptr = λ e.
          absurd (ground (arith, mem-erase (key w p) (entry t ptr) q.timers v.timers_sorted)) in
        (
          t',
          ground (arith, update_ne q.heap ptr none p),
          b,
          ground (
            arith,
            mem-erase (active_entry t' p) (active_entry t ptr) q.active_timers v.active_sorted,
          ),
          d,
        );
    active = λ p s h.
        let was : mem (key p s) q.active_timers ≡ true =
          ground
            (arith, mem-erase (key p s) (active_entry t ptr) q.active_timers v.active_sorted) in
        let (t', a, b, c) = v.active p s was in
        let differs : p ≢ ptr = λ e. absurd (
          ground
            (arith, mem-erase (key p s) (active_entry t ptr) q.active_timers v.active_sorted)) in
        (
          t',
          ground (arith, update_ne q.heap ptr none p),
          b,
          ground (arith, mem-erase (entry t' p) (entry t ptr) q.timers v.timers_sorted),
        );
  }

-- After a cancel: the sets agree, the active set is the old one without the timer, and no timer but
-- that one is freed.
abbrev pub IsCancelled : TimerQueue → TimerId → TimerQueue → Type 0
IsCancelled q id q' =
    Inv q'
    × ((j : Key)
        → mem j q'.active_timers ≡ (not (key_eq j (key id.timer id.seq)) && mem j q.active_timers))
    × ((p : ℕ) → mem (key p id.seq) q.active_timers ≡ false → q'.heap p ≡ q.heap p)

noted_Inv : (q : TimerQueue) (c : List Key) → Inv q → Inv (record q { canceling_timers = c })
noted_Inv q c v = record {
  timers_sorted = v.timers_sorted;
  active_sorted = v.active_sorted;
  sizes = v.sizes;
  scheduled = v.scheduled;
  active = v.active;
}

active_eq :
    (q : TimerQueue) (id : TimerId) (t : Timer)
    → q.heap id.timer ≡ some t
    → mem (entry t id.timer) q.timers ≡ true
    → t.sequence ≡ id.seq
    → cancel_active q id ≡ some (removed q t id.timer)
unfolding cancel_active
active_eq q id t at listed e = rw at (rw listed (rw e refl))

present_eq :
    (q : TimerQueue) (id : TimerId) (r : TimerQueue)
    → length q.timers ≡ length q.active_timers
    → length r.timers ≡ length r.active_timers
    → mem (key id.timer id.seq) q.active_timers ≡ true
    → cancel_active q id ≡ some r
    → cancel_in_loop q id ≡ some r
unfolding cancel_in_loop
present_eq q id r s s' h e =
    let x : (length q.timers == length q.active_timers) ≡ true = ground arith in
    let y : (length r.timers == length r.active_timers) ≡ true = ground arith in
    rw x (rw h (rw e (rw y refl)))

-- The set of cancelled timers when the timer is not active.
abbrev noted : TimerQueue → TimerId → List Key
noted q id =
    if q.calling_expired_timers
    then insert (key id.timer id.seq) q.canceling_timers
    else q.canceling_timers

missing_eq :
    (q : TimerQueue) (id : TimerId)
    → length q.timers ≡ length q.active_timers
    → mem (key id.timer id.seq) q.active_timers ≡ false
    → cancel_in_loop q id ≡ some (record q { canceling_timers = noted q id })
unfolding cancel_in_loop
missing_eq q id s h =
    let x : (length q.timers == length q.active_timers) ≡ true = ground arith in
    rw x (
      rw h (elim (Bool-cases q.calling_expired_timers) [
        | inl c ↦ rw c (rw x refl)
        | inr c ↦ rw c (rw x refl)
      ]))

-- On a queue whose sets agree `cancelInLoop` passes every assertion, whether the timer is active or
-- not. Afterwards the sets agree, the active set is what it was without the timer, and no timer is
-- freed whose address and the given sequence number are not active.
pub cancel_in_loop-IsCancelled :
    (q : TimerQueue) (id : TimerId) → Inv q → Returns (cancel_in_loop q id) (IsCancelled q id)
unfolding cancel_in_loop
cancel_in_loop-IsCancelled q id v = elim (Bool-cases (mem (key id.timer id.seq) q.active_timers)) [
  | inl h ↦
      let (t, a, b, c) = v.active id.timer id.seq h in
      Returns_of_eq (IsCancelled q id)
        (present_eq q id (removed q t id.timer) v.sizes
          (removed-Inv q t id.timer v a c (rw b h)).sizes h (active_eq q id t a c b))
        (
          removed-Inv q t id.timer v a c (rw b h),
          λ j. rw b (mem-erase j (key id.timer id.seq) q.active_timers v.active_sorted),
          λ p idle. ground (arith, update_ne q.heap id.timer none p),
        )
  | inr h ↦ Returns_of_eq (IsCancelled q id) (missing_eq q id v.sizes h) (
    noted_Inv q (noted q id) v,
    λ j. ground (arith, mem_congr j (key id.timer id.seq) q.active_timers),
    λ p idle. refl,
  )
]
