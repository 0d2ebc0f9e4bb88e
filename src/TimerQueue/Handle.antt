-- ===== src/TimerQueue/Handle.antt =====
-- The whole of `handleRead` (irono/net/TimerQueue.cc): expired timers run, and start again or go.
use irono.Base.{
  List-cases, refl, none, ◌≢◌, ◌==◌, Returns_of_eq, ℕ, ◌≡◌, ap, ◌∙◌, Bool, true, false, ◌&&◌,
  Option, some, List, [], ◌∷◌, ltb, leb, arith, Bool-cases, inl, inr, Returns, Returns-bind,
  Returns-mono,
}
use irono.TimerQueue.SortedSet.{Key, mem, IsSorted, Above}
use irono.TimerQueue.{
  TimerQueue, TimerId, entry, get_expired, run_all, reset_all, next_expiration, reset, handle_read,
  read_timerfd, cancel_in_loop,
}
use irono.TimerQueue.Inv.{Inv, key}
use irono.TimerQueue.Add.{Settime, reset_timerfd_if, set_if-Inv}
use irono.TimerQueue.Expire.{Expired, get_expired-Expired}
use irono.TimerQueue.Reset.{Apart, IsOut, Waiting, reset_all-Inv}
use irono.TimerQueue.Cancel.{IsCancelled, cancel_in_loop-IsCancelled}

-- Two entries of the timers have two addresses.
Above-Apart :
    (q : TimerQueue) (e : Key) (es : List Key)
    → Inv q
    → mem e q.timers ≡ true
    → Above e es
    → ((j : Key) → mem j es ≡ true → mem j q.timers ≡ true)
    → Apart e.second es
unfolding mem
Above-Apart q e [] v h a m = tt
Above-Apart q e (f ∷ es) v h a m = (
  λ same.
      let (t, at, w, _, _) = v.scheduled e.first e.second h in
      let (t', at', w', _, _) = v.scheduled f.first f.second (m f (ground arith)) in
      absurd (ground arith),
  Above-Apart q e es v h a.1 (λ j k. m j (ground arith)),
)

-- A timer that was due is out of both sets, and in memory.
due-IsOut :
    (q : TimerQueue) (now : ℕ) (r : TimerQueue × List Key) (e : Key)
    → Inv q
    → Expired q now r
    → (leb e.first now && mem e q.timers) ≡ true
    → IsOut (r.0) e
due-IsOut q now r e v x h =
    let (t, at, w, _, low) = v.scheduled e.first e.second (ground arith) in
    let here : (r.0).heap e.second ≡ some t = ap (λ m. m e.second) x.memory ∙ at in
    (
      (t, here),
      low,
      λ s. elim (Bool-cases (mem (key e.second s) (r.0).active_timers)) [
        | inl k ↦
            let (t', at', _, later) = x.inv.active e.second s k in
            absurd (ground (arith, x.left (entry t' e.second)))
        | inr k ↦ k
      ],
    )

Expired-Waiting :
    (q : TimerQueue) (now : ℕ) (r : TimerQueue × List Key) (es : List Key)
    → Inv q
    → Expired q now r
    → IsSorted es
    → ((j : Key) → mem j es ≡ true → (leb j.first now && mem j q.timers) ≡ true)
    → Waiting (r.0) es
unfolding mem
Expired-Waiting q now r [] v x s m = tt
Expired-Waiting q now r (e ∷ es) v x s m = (
  due-IsOut q now r e v x (m e (ground arith)),
  Above-Apart q e es v (ground (arith, m e)) s.0 (λ j k. ground (arith, m j)),
  Expired-Waiting q now r es v x s.1 (λ j k. m j (ground arith)),
)

-- The queue as the callbacks of the expired timers `es` find it and leave it.
abbrev pub Calm : List Key → TimerQueue → Type 0
Calm es q = Inv q × Waiting q es

run_all-Calm :
    (run : ℕ → TimerQueue → Option TimerQueue) (all es : List Key) (q : TimerQueue)
    → ((callback : ℕ) (q : TimerQueue) → Calm all q → Returns (run callback q) (Calm all))
    → ((q : TimerQueue) → Waiting q all → Waiting q es)
    → Calm all q
    → Returns (run_all run q es) (Calm all)
unfolding run_all
run_all-Calm run all [] q k part c = c
run_all-Calm run all (e ∷ es) q k part c =
    let ((t, at), _, _) = (part q c.1).0 in
    rw at (
      Returns-bind (run t.callback q) (λ q'. run_all run q' es) (Calm all) (Calm all)
        (k t.callback q c) (λ q' c'. run_all-Calm run all es q' k (λ p w. (part p w).2) c'))

-- The invariant does not speak of the two fields that `handleRead` sets.
flags-Inv :
    (q : TimerQueue) (b : Bool) (c : List Key)
    → Inv q
    → Inv (record q { calling_expired_timers = b; canceling_timers = c })
flags-Inv q b c v = record {
  timers_sorted = v.timers_sorted;
  active_sorted = v.active_sorted;
  sizes = v.sizes;
  scheduled = v.scheduled;
  active = v.active;
}

flags-Waiting :
    (q : TimerQueue) (b : Bool) (c es : List Key)
    → Waiting q es
    → Waiting (record q { calling_expired_timers = b; canceling_timers = c }) es
flags-Waiting q b c [] w = tt
flags-Waiting q b c (e ∷ es) (out, apart, w) = (out, apart, flags-Waiting q b c es w)

head-mem : (x : Key) (xs : List Key) → mem x (x ∷ xs) ≡ true
unfolding mem
head-mem x xs = ground arith

next_lem : (q : TimerQueue) → Inv q → Returns (next_expiration q) (λ _. Unit {0})
unfolding next_expiration
next_lem q v = elim (List-cases q.timers) [
  | inl e ↦ rw e tt
  | inr (x, xs, e) ↦
      let (t, at, _, _, _) = v.scheduled x.first x.second (rw e (head-mem x xs)) in rw (e, at) tt
]

reset-Inv :
    (settime : ℕ × ℕ → Bool) (q : TimerQueue) (es : List Key) (now clock : ℕ)
    → Settime settime
    → Calm es q
    → Returns (reset settime q es now clock) Inv
unfolding reset
reset-Inv settime q es now clock ok c =
    Returns-bind (reset_all q es now) _ Inv Inv (reset_all-Inv q es now c.0 c.1) (λ q' v.
      Returns-bind (next_expiration q') _ (λ _. Unit {0}) Inv (next_lem q' v)
        (λ n _.
          Returns_of_eq Inv (reset_timerfd_if settime (ltb 0 n) q' n clock ok)
            (set_if-Inv (ltb 0 n) q' n clock v)))

short_read :
    (settime : ℕ × ℕ → Bool) (run : ℕ → TimerQueue → Option TimerQueue) (q : TimerQueue)
    (now clock : ℕ) (n : Option ℕ)
    → n ≢ some 8
    → handle_read settime run q n now clock ≡ none
unfolding handle_read read_timerfd
short_read settime run q now clock none h = refl
short_read settime run q now clock (some n) h =
    let other : (n == 8) ≡ false = ground arith in rw other refl

-- On a queue whose sets agree, where `read` on the timerfd gives the eight bytes of its count, and for
-- every `timerfd_settime` that succeeds with nanoseconds below a second: `handleRead` passes every
-- assertion, meets no `LOG_FATAL` and leaves sets that agree, whatever the callbacks of the expired
-- timers do, as long as each comes back, keeps the sets in agreement, and leaves the expired timers out
-- of the sets and in memory. After a read of any other number of bytes, or one that fails, it does not
-- come back.
pub handle_read-Inv :
    (settime : ℕ × ℕ → Bool) (run : ℕ → TimerQueue → Option TimerQueue) (q : TimerQueue)
    (now clock : ℕ)
    → Settime settime
    → ((es : List Key) (callback : ℕ) (p : TimerQueue)
        → Calm es p
        → Returns (run callback p) (Calm es))
    → Inv q
    → Returns (handle_read settime run q (some 8) now clock) Inv
      × ((n : Option ℕ) → n ≢ some 8 → handle_read settime run q n now clock ≡ none)
unfolding handle_read read_timerfd
handle_read-Inv settime run q now clock ok keeps v = (
  Returns-bind (get_expired q now) _ (Expired q now) Inv (get_expired-Expired q now v) (λ r x.
      let w = Expired-Waiting q now r (r.1) v x x.sorted (λ j k. ground (arith, x.taken j)) in
      Returns-bind
        (run_all run (record (r.0) { calling_expired_timers = true; canceling_timers = [] }) (r.1))
        _ (Calm (r.1)) Inv
        (run_all-Calm run (r.1) (r.1)
          (record (r.0) { calling_expired_timers = true; canceling_timers = [] }) (keeps (r.1))
          (λ p k. k) (flags-Inv (r.0) true [] x.inv, flags-Waiting (r.0) true [] (r.1) w))
        (λ q'' c.
          reset-Inv settime (record q'' { calling_expired_timers = false }) (r.1) now clock ok
            (
              flags-Inv q'' false q''.canceling_timers c.0,
              flags-Waiting q'' false q''.canceling_timers (r.1) c.1,
            ))),
  λ n. short_read settime run q now clock n,
)

-- Cancelling any timer in a callback is allowed.
cancel-Waiting :
    (q q' : TimerQueue) (id : TimerId) (es : List Key)
    → IsCancelled q id q'
    → Waiting q es
    → Waiting q' es
cancel-Waiting q q' id [] c w = tt
cancel-Waiting q q' id (e ∷ es) c (((t, at), low, idle), apart, w) = (
  ((t, c.2 e.second (idle id.seq) ∙ at), low, λ s. ground (arith, c.1 (key e.second s), idle s)),
  apart,
  cancel-Waiting q q' id es c w,
)

pub cancel_in_loop-Calm :
    (id : TimerId) (es : List Key) (q : TimerQueue)
    → Calm es q
    → Returns (cancel_in_loop q id) (Calm es)
cancel_in_loop-Calm id es q c =
    Returns-mono (cancel_in_loop q id) (IsCancelled q id) (Calm es)
      (cancel_in_loop-IsCancelled q id c.0) (λ q' d. (d.0, cancel-Waiting q q' id es d c.1))
