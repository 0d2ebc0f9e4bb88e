-- ===== src/TimerQueue/Inv.antt =====
-- The two sets and the timers agree (irono/net/TimerQueue.cc), and inserting a timer keeps it so.
use irono.Base.{ℕ, ◌<◌, ◌≡◌, refl, true, false, some, length, arith, Bool-cases, inl, inr}
use irono.TimerQueue.SortedSet.{
  Key, mem, insert, key_eq, IsSorted, mem-insert, length-insert, insert-IsSorted,
}
use irono.TimerQueue.{
  Timer, TimerQueue, uintptr_max, entry, active_entry, insert_timer, is_earliest, create,
}

abbrev pub key : ℕ → ℕ → Key
key a b = record { first = a; second = b }

-- The timer at `p` has the time `w`, and is in the active set.
abbrev pub Scheduled : TimerQueue → ℕ → ℕ → Type 0
Scheduled q w p =
    (t : Timer) × (q.heap p ≡ some t)
    × (t.expiration ≡ w)
    × (mem (active_entry t p) q.active_timers ≡ true)
    × (p < uintptr_max)

abbrev pub IsActive : TimerQueue → ℕ → ℕ → Type 0
IsActive q p s =
    (t : Timer) × (q.heap p ≡ some t) × (t.sequence ≡ s) × (mem (entry t p) q.timers ≡ true)

-- Every entry of either set is a live timer that is in the other too, and the sets are of one size.
pub record Inv (q : TimerQueue) : Type 0 where
  pub timers_sorted : IsSorted q.timers
  pub active_sorted : IsSorted q.active_timers
  pub sizes : length q.timers ≡ length q.active_timers
  pub scheduled : (w p : ℕ) → mem (key w p) q.timers ≡ true → Scheduled q w p
  pub active : (p s : ℕ) → mem (key p s) q.active_timers ≡ true → IsActive q p s

pub create-Inv : Inv create
unfolding create mem
create-Inv = record {
  timers_sorted = tt;
  active_sorted = tt;
  sizes = refl;
  scheduled = λ w p h. cc;
  active = λ p s h. cc;
}

module _ (q : TimerQueue) (t : Timer) (ptr : ℕ) where
  -- The queue with the timer in both sets.
  unfoldable pub inserted : TimerQueue
  inserted = record q {
    timers = insert (entry t ptr) q.timers;
    active_timers = insert (active_entry t ptr) q.active_timers;
  }

  -- An address that is not active is not scheduled.
  idle :
      Inv q
      → ((s : ℕ) → mem (key ptr s) q.active_timers ≡ false)
      → (w : ℕ) → mem (key w ptr) q.timers ≡ false
  idle v fresh w = elim (Bool-cases (mem (key w ptr) q.timers)) [
    | inl h ↦
        let (t', _, _, a, _) = v.scheduled w ptr h in absurd (ground (arith, fresh t'.sequence))
    | inr h ↦ h
  ]

  pub inserted-Inv :
      Inv q
      → q.heap ptr ≡ some t
      → ptr < uintptr_max
      → ((s : ℕ) → mem (key ptr s) q.active_timers ≡ false)
      → Inv inserted
  unfolding inserted
  inserted-Inv v at low fresh = record {
    timers_sorted = insert-IsSorted (entry t ptr) q.timers v.timers_sorted;
    active_sorted = insert-IsSorted (active_entry t ptr) q.active_timers v.active_sorted;
    sizes = ground (
      arith,
      length-insert (entry t ptr) q.timers (idle v fresh t.expiration),
      length-insert (active_entry t ptr) q.active_timers (fresh t.sequence),
      v.sizes,
    );
    scheduled = λ w p h. elim (Bool-cases (key_eq (key w p) (entry t ptr))) [
      | inl same ↦ (
        t,
        ground arith,
        ground arith,
        ground (arith, mem-insert (active_entry t p) (active_entry t ptr) q.active_timers),
        ground arith,
      )
      | inr differs ↦
          let (t', a, b, c, d) =
            v.scheduled w p (ground (arith, mem-insert (key w p) (entry t ptr) q.timers)) in
          (
            t',
            a,
            b,
            ground (arith, mem-insert (active_entry t' p) (active_entry t ptr) q.active_timers),
            d,
          )
    ];
    active = λ p s h. elim (Bool-cases (key_eq (key p s) (active_entry t ptr))) [
      | inl same ↦ (
        t,
        ground arith,
        ground arith,
        ground (arith, mem-insert (entry t p) (entry t ptr) q.timers),
      )
      | inr differs ↦
          let (t', a, b, c) =
            v.active p s
              (ground (arith, mem-insert (key p s) (active_entry t ptr) q.active_timers)) in
          (t', a, b, ground (arith, mem-insert (entry t' p) (entry t ptr) q.timers))
    ];
  }

  -- `insert` passes its assertions and adds to both sets.
  pub insert_timer_lem :
      Inv q
      → ((s : ℕ) → mem (key ptr s) q.active_timers ≡ false)
      → insert_timer q t ptr ≡ some (inserted, is_earliest t.expiration q.timers)
  unfolding insert_timer inserted
  insert_timer_lem v fresh = ground (
    arith,
    length-insert (entry t ptr) q.timers (idle v fresh t.expiration),
    length-insert (active_entry t ptr) q.active_timers (fresh t.sequence),
    v.sizes,
    idle v fresh t.expiration,
    fresh t.sequence,
  )
