-- ===== src/TimerQueue/Reset.antt =====
-- The expired timers start again or are deleted (`TimerQueue::reset` of irono/net/TimerQueue.cc).
use irono.Base.{
  ℕ, ◌<◌, ◌≡◌, ◌≢◌, refl, ◌∙◌, false, not, ◌&&◌, Option, none, some, List, [], ◌∷◌, arith, update,
  update_self, update_ne, Bool-cases, inl, inr, Returns, Returns-bind,
}
use irono.TimerQueue.SortedSet.{Key, mem, mem-insert}
use irono.TimerQueue.{Timer, TimerQueue, uintptr_max, active_entry, restart, reset_one, reset_all}
use irono.TimerQueue.Inv.{Inv, key, inserted, inserted-Inv, insert_timer_lem}

-- No entry has the address `p`.
abbrev pub Apart : ℕ → List Key → Type 0
Apart p [] = Unit {0}
Apart p (e ∷ es) = (e.second ≢ p) × Apart p es

-- The timer of an entry is in memory and out of both sets.
abbrev pub IsOut : TimerQueue → Key → Type 0
IsOut q e =
    ((t : Timer) × (q.heap e.second ≡ some t))
    × (e.second < uintptr_max)
    × ((s : ℕ) → mem (key e.second s) q.active_timers ≡ false)

-- The timers of the entries are out, each at its own address.
abbrev pub Waiting : TimerQueue → List Key → Type 0
Waiting q [] = Unit {0}
Waiting q (e ∷ es) = IsOut q e × Apart e.second es × Waiting q es

-- A queue with another object, or none, at the address `ptr`.
abbrev stored : TimerQueue → ℕ → Option Timer → TimerQueue
stored q ptr t = record q { heap = update q.heap ptr t }

stored-Inv :
    (q : TimerQueue) (ptr : ℕ) (t : Option Timer)
    → Inv q
    → ((s : ℕ) → mem (key ptr s) q.active_timers ≡ false)
    → Inv (stored q ptr t)
stored-Inv q ptr t v idle = record {
  timers_sorted = v.timers_sorted;
  active_sorted = v.active_sorted;
  sizes = v.sizes;
  scheduled = λ w p h.
      let (t', a, b, c, d) = v.scheduled w p h in
      (t', ground (arith, update_ne q.heap ptr t p, idle t'.sequence), b, c, d);
  active = λ p s h.
      let (t', a, b, c) = v.active p s h in
      (t', ground (arith, update_ne q.heap ptr t p, idle s), b, c);
}

-- Only the address `ptr` differs, in memory and in the active set.
record Near (q : TimerQueue) (ptr : ℕ) (q' : TimerQueue) : Type 0 where
  inv : Inv q'
  memory : (p : ℕ) → p ≢ ptr → q'.heap p ≡ q.heap p
  others : (p s : ℕ) → p ≢ ptr → mem (key p s) q'.active_timers ≡ mem (key p s) q.active_timers

again-Near :
    (q : TimerQueue) (t : Timer) (ptr : ℕ)
    → Inv q
    → ptr < uintptr_max
    → ((s : ℕ) → mem (key ptr s) q.active_timers ≡ false)
    → Near q ptr (inserted (stored q ptr (some t)) t ptr)
unfolding inserted
again-Near q t ptr v low idle = record {
  inv =
      inserted-Inv (stored q ptr (some t)) t ptr (stored-Inv q ptr (some t) v idle)
        (update_self q.heap ptr (some t)) low idle;
  memory = λ p h. update_ne q.heap ptr (some t) p h;
  others = λ p s h. ground (arith, mem-insert (key p s) (active_entry t ptr) q.active_timers);
}

reset_one-Near :
    (q : TimerQueue) (e : Key) (now : ℕ)
    → Inv q
    → IsOut q e
    → Returns (reset_one q e now) (Near q e.second)
unfolding reset_one
reset_one-Near q e now v ((t, at), low, idle) =
    elim (Bool-cases (t.repeat && not (mem (active_entry t e.second) q.canceling_timers))) [
      | inl again ↦
          let t' = restart t now in
          let q' = stored q e.second (some t') in
          rw
            (
              at,
              again,
              insert_timer_lem q' t' e.second (stored-Inv q e.second (some t') v idle) idle,
            )
            (again-Near q t' e.second v low idle)
      | inr deleted ↦
          rw (at, deleted)
            (record {
              inv = stored-Inv q e.second none v idle;
              memory = λ p h. update_ne q.heap e.second none p h;
              others = λ p s h. refl;
            })
    ]

Near-Waiting :
    (q q' : TimerQueue) (ptr : ℕ) (es : List Key)
    → Near q ptr q'
    → Apart ptr es
    → Waiting q es
    → Waiting q' es
Near-Waiting q q' ptr [] n a w = tt
Near-Waiting q q' ptr (e ∷ es) n (apart, a) (((t, at), low, idle), more, w) = (
  ((t, n.memory e.second apart ∙ at), low, λ s. n.others e.second s apart ∙ idle s),
  more,
  Near-Waiting q q' ptr es n a w,
)

pub reset_all-Inv :
    (q : TimerQueue) (es : List Key) (now : ℕ)
    → Inv q
    → Waiting q es
    → Returns (reset_all q es now) Inv
unfolding reset_all
reset_all-Inv q [] now v w = v
reset_all-Inv q (e ∷ es) now v (out, apart, w) =
    Returns-bind (reset_one q e now) (λ q'. reset_all q' es now) (Near q e.second) Inv
      (reset_one-Near q e now v out)
      (λ q' n. reset_all-Inv q' es now n.inv (Near-Waiting q q' e.second es n apart w))
