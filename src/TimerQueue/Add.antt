-- ===== src/TimerQueue/Add.antt =====
-- Adding a timer (`TimerQueue::addTimer` of irono/net/TimerQueue.cc).
use irono.Base.{
  max, ℕ, ◌+◌, ◌*◌, ◌-◌, ◌<◌, ◌≡◌, refl, Bool, true, false, none, some, if◌then◌else◌, arith,
  update, update_self, update_ne, Bool-cases, inl, inr, ap, ◌∙◌,
}
use irono.TimerQueue.SortedSet.{mem, insert, mem-insert}
use irono.TimerQueue.{
  Timer, TimerQueue, TimerId, uintptr_max, is_earliest, add_timer_in_loop, add_timer, new_timer,
  reset_timerfd, how_much_time_from_now,
}
use irono.TimerQueue.Inv.{Inv, key, inserted, inserted-Inv, insert_timer_lem}

-- A queue where the timer `t` stands at the address `ptr`.
abbrev pub placed : TimerQueue → Timer → ℕ → TimerQueue
placed q t ptr = record q { heap = update q.heap ptr (some t); num_created = q.num_created + 1 }

placed-Inv :
    (q : TimerQueue) (t : Timer) (ptr : ℕ) → Inv q → q.heap ptr ≡ none → Inv (placed q t ptr)
placed-Inv q t ptr v free = record {
  timers_sorted = v.timers_sorted;
  active_sorted = v.active_sorted;
  sizes = v.sizes;
  scheduled = λ w p h.
      let (t', a, b, c, d) = v.scheduled w p h in
      (
        t',
        ground (arith, update_ne q.heap ptr (some t) p, update_self q.heap ptr (some t)),
        b,
        c,
        d,
      );
  active = λ p s h.
      let (t', a, b, c) = v.active p s h in
      (t', ground (arith, update_ne q.heap ptr (some t) p, update_self q.heap ptr (some t)), b, c);
}

-- An address that holds no timer is not active.
free_fresh :
    (q : TimerQueue) (ptr : ℕ)
    → Inv q
    → q.heap ptr ≡ none
    → (s : ℕ) → mem (key ptr s) q.active_timers ≡ false
free_fresh q ptr v free s = elim (Bool-cases (mem (key ptr s) q.active_timers)) [
  | inl h ↦ let (t', a, _, _) = v.active ptr s h in absurd (ground arith)
  | inr h ↦ h
]

-- `timerfd_settime` succeeds with nanoseconds that are less than a second.
abbrev pub Settime : (ℕ × ℕ → Bool) → Type 0
Settime settime = (t : ℕ × ℕ) → t.1 < 1000000000 → settime t ≡ true

-- The queue with the timerfd set.
unfoldable pub armed_at : TimerQueue → ℕ → ℕ → TimerQueue
armed_at q e now = record q {
  armed = some (e, (let value = how_much_time_from_now e now in value.0 * 1000000000 + value.1));
}

nanoseconds_bound : (e now : ℕ) → (how_much_time_from_now e now).1 < 1000000000
unfolding how_much_time_from_now
nanoseconds_bound e now = ground arith

pub reset_timerfd-armed_at :
    (settime : ℕ × ℕ → Bool) (q : TimerQueue) (e now : ℕ)
    → Settime settime
    → reset_timerfd settime q e now ≡ some (armed_at q e now)
unfolding reset_timerfd armed_at
reset_timerfd-armed_at settime q e now ok =
    rw (ok (how_much_time_from_now e now) (nanoseconds_bound e now)) refl

pub reset_timerfd_if :
    (settime : ℕ × ℕ → Bool) (b : Bool) (q : TimerQueue) (e now : ℕ)
    → Settime settime
    → (if b then reset_timerfd settime q e now else some q)
      ≡ some (if b then armed_at q e now else q)
reset_timerfd_if settime true q e now ok = reset_timerfd-armed_at settime q e now ok
reset_timerfd_if settime false q e now ok = refl

-- What the alarm is set to.
pub armed_at_lem :
    (q : TimerQueue) (e now : ℕ) → (armed_at q e now).armed ≡ some (e, max 100 (e - now) * 1000)
unfolding armed_at how_much_time_from_now
armed_at_lem q e now = ground arith

armed_at-Inv : (q : TimerQueue) (e now : ℕ) → Inv q → Inv (armed_at q e now)
unfolding armed_at
armed_at-Inv q e now v = record {
  timers_sorted = v.timers_sorted;
  active_sorted = v.active_sorted;
  sizes = v.sizes;
  scheduled = v.scheduled;
  active = v.active;
}

-- `IsAdded`: the invariant holds and the new timer is in both sets.
abbrev pub IsAdded : ℕ → ℕ → (TimerQueue × TimerId) → Type 0
IsAdded ptr when r = Inv (r.0) × (mem (key when ptr) (r.0).timers ≡ true) × (r.1.timer ≡ ptr)

set_if-timers :
    (b : Bool) (q : TimerQueue) (e now : ℕ) → (if b then armed_at q e now else q).timers ≡ q.timers
unfolding armed_at
set_if-timers true q e now = refl
set_if-timers false q e now = refl

pub set_if-Inv :
    (b : Bool) (q : TimerQueue) (e now : ℕ) → Inv q → Inv (if b then armed_at q e now else q)
set_if-Inv true q e now v = armed_at-Inv q e now v
set_if-Inv false q e now v = v

set_if-heap :
    (b : Bool) (q : TimerQueue) (e now : ℕ) → (if b then armed_at q e now else q).heap ≡ q.heap
unfolding armed_at
set_if-heap true q e now = refl
set_if-heap false q e now = refl

module _ (settime : ℕ × ℕ → Bool) (q : TimerQueue) (ptr callback when delta : ℕ) (repeat : Bool)
    (now : ℕ) where
  abbrev fresh_timer : Timer
  fresh_timer = (new_timer q when delta callback repeat).1

  abbrev result : TimerQueue
  result = inserted (placed q fresh_timer ptr) fresh_timer ptr

  abbrev pub earliest : Bool
  earliest = is_earliest when q.timers

  -- What `addTimer` leaves and returns.
  abbrev pub added : TimerQueue × TimerId
  added = (
    if earliest then armed_at result when now else result,
    record { timer = ptr; seq = q.num_created + 1 },
  )

  pub add_timer-added :
      Settime settime
      → Inv q
      → q.heap ptr ≡ none
      → add_timer settime q ptr callback when delta repeat now ≡ some added
  unfolding add_timer add_timer_in_loop new_timer
  add_timer-added ok v free = rw (update_self q.heap ptr (some fresh_timer)) (
      rw
        (
          insert_timer_lem (placed q fresh_timer ptr) fresh_timer ptr
              (placed-Inv q fresh_timer ptr v free) (free_fresh q ptr v free),
          reset_timerfd_if settime earliest result when now ok,
        )
        refl)

  pub added-timers : (added.0).timers ≡ insert (key when ptr) q.timers
  unfolding new_timer inserted
  added-timers = set_if-timers earliest result when now

  -- With an address below `UINTPTR_MAX` that no timer uses, the timer is in the set of timers at its
  -- time, and the two sets still agree.
  pub added-IsAdded : Inv q → q.heap ptr ≡ none → ptr < uintptr_max → IsAdded ptr when added
  unfolding new_timer inserted
  added-IsAdded v free low = (
    set_if-Inv earliest result when now (
        inserted-Inv (placed q fresh_timer ptr) fresh_timer ptr
          (placed-Inv q fresh_timer ptr v free) (update_self q.heap ptr (some fresh_timer)) low
          (free_fresh q ptr v free)),
    rw (set_if-timers earliest result when now)
        (ground (arith, mem-insert (key when ptr) (key when ptr) q.timers)),
    refl,
  )

  pub added-heap : (added.0).heap ptr ≡ some fresh_timer
  unfolding new_timer inserted
  added-heap =
      ap (λ m. m ptr) (set_if-heap earliest result when now)
      ∙ update_self q.heap ptr (some fresh_timer)

  -- Whether the alarm is set anew.
  pub added-armed_anew : earliest ≡ true → (added.0).armed ≡ (armed_at result when now).armed
  added-armed_anew e = rw e refl

  pub added-armed_still : earliest ≡ false → (added.0).armed ≡ q.armed
  unfolding inserted
  added-armed_still e = rw e refl
