-- ===== src/TimerQueue/Expire.antt =====
-- Taking the expired timers out of the sets (`TimerQueue::getExpired` of irono/net/TimerQueue.cc).
use irono.Base.{
  ℕ, ◌≡◌, refl, ap, sym, ◌∙◌, true, not, ◌&&◌, some, List, [], ◌∷◌, ◌++◌, length, ltb, leb, ◌==◌,
  arith, Bool-cases, inl, inr, Returns, Returns_of_eq,
}
use irono.TimerQueue.SortedSet.{
  Key, mem, erase, before, from, key_eq, key_lt, IsSorted, mem-erase, length-erase, erase-IsSorted,
  before-from, before-IsSorted, mem-before, mem-from,
}
use irono.TimerQueue.{
  Timer, TimerQueue, uintptr_max, entry, active_entry, erase_active, starts_after, get_expired,
}
use irono.TimerQueue.Inv.{Inv, key}

-- The queue whose first timer, `e`, leaves both sets, and stays in memory.
abbrev dropped : TimerQueue → Timer → ℕ → List Key → TimerQueue
dropped q t ptr rest = record q {
  timers = rest;
  active_timers = erase (active_entry t ptr) q.active_timers;
}

head-eq : (e : Key) (xs : List Key) → erase e (e ∷ xs) ≡ xs
unfolding erase
head-eq e xs = ground arith

mem_rest :
    (e j : Key) (rest : List Key)
    → IsSorted (e ∷ rest)
    → mem j rest ≡ (not (key_eq j e) && mem j (e ∷ rest))
mem_rest e j rest s = ap (mem j) (sym (head-eq e rest)) ∙ mem-erase j e (e ∷ rest) s

dropped-Inv :
    (q : TimerQueue) (t : Timer) (e : Key) (rest : List Key)
    → Inv q
    → q.timers ≡ e ∷ rest
    → q.heap e.second ≡ some t
    → t.expiration ≡ e.first
    → mem (active_entry t e.second) q.active_timers ≡ true
    → Inv (dropped q t e.second rest)
dropped-Inv q t e rest v is at when live = record {
  timers_sorted = ground (arith, v.timers_sorted);
  active_sorted = erase-IsSorted (active_entry t e.second) q.active_timers v.active_sorted;
  sizes = ground (arith, length-erase (active_entry t e.second) q.active_timers live, v.sizes);
  scheduled = λ w p h.
      let m : mem (key w p) rest ≡ (not (key_eq (key w p) e) && mem (key w p) q.timers) =
        rw is (mem_rest e (key w p) rest (ground (arith, v.timers_sorted))) in
      let (t', a, b, c, d) = v.scheduled w p (ground (arith, m)) in
      (
        t',
        a,
        b,
        ground (
          arith,
          m,
          mem-erase (active_entry t' p) (active_entry t e.second) q.active_timers v.active_sorted,
        ),
        d,
      );
  active = λ p s h.
      let was : (not (key_eq (key p s) (active_entry t e.second)) && mem (key p s) q.active_timers)
          ≡ true =
        ground
          (arith, mem-erase (key p s) (active_entry t e.second) q.active_timers v.active_sorted) in
      let (t', a, b, c) = v.active p s (ground (arith, was)) in
      let m : mem (entry t' p) rest ≡ (not (key_eq (entry t' p) e) && mem (entry t' p) q.timers) =
        rw is (mem_rest e (entry t' p) rest (ground (arith, v.timers_sorted))) in
      (t', a, b, ground (arith, m, was));
}

-- `q` with the timers `xs` and the active timers `a`.
abbrev with_sets : TimerQueue → List Key → List Key → TimerQueue
with_sets q xs a = record q { timers = xs; active_timers = a }

-- The loop of `getExpired`, while the entries `es` go and `rest` stays.
erase_active_lem :
    (es rest : List Key) (q : TimerQueue) (a : List Key)
    → Inv (with_sets q (es ++ rest) a)
    → (a' : List Key) × (erase_active (with_sets q rest a) es ≡ some (with_sets q rest a'))
      × Inv (with_sets q rest a')
unfolding erase_active mem
erase_active_lem [] rest q a v = (a, refl, v)
erase_active_lem (e ∷ es) rest q a v =
    let (t, at, when, live, _) = v.scheduled e.first e.second (ground arith) in
    let (a', run, w) =
      erase_active_lem es rest q (erase (active_entry t e.second) a)
        (dropped-Inv (with_sets q (e ∷ es ++ rest) a) t e (es ++ rest) v refl at when live) in
    (a', rw (at, live) run, w)

abbrev sentry_at : ℕ → Key
sentry_at now = key now uintptr_max

-- Below the sentry lie the entries that are due.
due :
    (q : TimerQueue) (now : ℕ) (j : Key)
    → Inv q
    → (key_lt j (sentry_at now) && mem j q.timers) ≡ (leb j.first now && mem j q.timers)
due q now j v = elim (Bool-cases (mem j q.timers)) [
  | inl h ↦ let (_, _, _, _, low) = v.scheduled j.first j.second h in ground arith
  | inr h ↦ rw h (ground arith)
]

not_due :
    (q : TimerQueue) (now : ℕ) (j : Key)
    → Inv q
    → (not (key_lt j (sentry_at now)) && mem j q.timers) ≡ (ltb now j.first && mem j q.timers)
not_due q now j v = elim (Bool-cases (mem j q.timers)) [
  | inl h ↦ let (_, _, _, _, low) = v.scheduled j.first j.second h in ground arith
  | inr h ↦ rw h (ground arith)
]

starts_after-true :
    (now : ℕ) (xs : List Key)
    → ((j : Key) → mem j xs ≡ true → ltb now j.first ≡ true)
    → starts_after now xs ≡ true
unfolding starts_after mem
starts_after-true now [] h = refl
starts_after-true now (x ∷ xs) h = h x (ground arith)

-- What `getExpired` leaves and returns: the entries that are due at `now`, in the order of their times,
-- and those that are not. No timer is freed.
pub record Expired (q : TimerQueue) (now : ℕ) (r : TimerQueue × List Key) : Type 0 where
  pub inv : Inv (r.0)
  pub memory : (r.0).heap ≡ q.heap
  pub sorted : IsSorted (r.1)
  pub split : r.1 ++ (r.0).timers ≡ q.timers
  pub taken : (j : Key) → mem j (r.1) ≡ (leb j.first now && mem j q.timers)
  pub left : (j : Key) → mem j (r.0).timers ≡ (ltb now j.first && mem j q.timers)

-- On a queue whose sets agree `getExpired` passes every assertion, and takes exactly the timers
-- that are due out of both sets, in the order of their times. The sets agree again, and no timer is
-- freed.
pub get_expired-Expired :
    (q : TimerQueue) (now : ℕ) → Inv q → Returns (get_expired q now) (Expired q now)
unfolding get_expired
get_expired-Expired q now v =
    let sentry = sentry_at now in
    let xs = q.timers in
    let (a', run, w) =
      erase_active_lem (before sentry xs) (from sentry xs) q q.active_timers
        (rw (before-from sentry xs) v) in
    let later : (j : Key) → mem j (from sentry xs) ≡ (ltb now j.first && mem j xs) =
      λ j. mem-from j sentry xs v.timers_sorted ∙ not_due q now j v in
    let s : (length xs == length q.active_timers) ≡ true = ground (arith, v.sizes) in
    let k : starts_after now (from sentry xs) ≡ true =
      starts_after-true now (from sentry xs) (λ j h. ground (arith, later j)) in
    let s' : (length (from sentry xs) == length a') ≡ true = ground (arith, w.sizes) in
    Returns_of_eq (Expired q now)
      (let e : get_expired q now ≡ some (with_sets q (from sentry xs) a', before sentry xs) =
          rw s (rw k (rw run (rw s' refl))) in
        e)
      (record {
        inv = w;
        memory = refl;
        sorted = before-IsSorted sentry xs v.timers_sorted;
        split = before-from sentry xs;
        taken = λ j. mem-before j sentry xs v.timers_sorted ∙ due q now j v;
        left = later;
      })
