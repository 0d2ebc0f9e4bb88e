-- ===== src/EventLoop/Timers.antt =====
-- The timers of a loop (`runAt`, `runAfter`, `runEvery` and `cancel` of irono/net/EventLoop.cc), asked for
-- in the loop's thread. Times and delays are microseconds.
use irono.Base.{
  ℕ, ◌+◌, ◌-◌, ◌*◌, ◌<◌, ◌≡◌, refl, Bool, true, false, Option, none, some, leb, max, arith, Returns,
  Returns-mono, Returns_of_eq,
}
use irono.TimerQueue.{
  Timer, TimerQueue, TimerId, uintptr_max, add_timer, new_timer, cancel_in_loop, get_expired,
}
use irono.TimerQueue.SortedSet.{mem}
use irono.TimerQueue.Inv.{Inv, key}
use irono.TimerQueue.Add.{Settime, IsAdded, added, add_timer-added, added-IsAdded, added-heap}
use irono.TimerQueue.Alarm.{IsArmed, added-IsArmed, added-first}
use irono.TimerQueue.Expire.{Expired, get_expired-Expired}

-- `ptr` is where `new` puts the timer; `now` and `clock` are the times that the clock gives to this
-- call and to the setting of the timerfd.
unfoldable pub run_at : (ℕ × ℕ → Bool) → TimerQueue → ℕ → ℕ → ℕ → ℕ → Option (TimerQueue × TimerId)
run_at settime q ptr callback time clock = add_timer settime q ptr callback time 0 false clock

unfoldable pub run_after :
    (ℕ × ℕ → Bool) → TimerQueue → ℕ → ℕ → ℕ → ℕ → ℕ → Option (TimerQueue × TimerId)
run_after settime q ptr callback delay now clock = run_at settime q ptr callback (now + delay) clock

-- `positive` is `interval > 0.0`.
unfoldable pub run_every :
    (ℕ × ℕ → Bool) → TimerQueue → ℕ → ℕ → ℕ → Bool → ℕ → ℕ → Option (TimerQueue × TimerId)
run_every settime q ptr callback interval positive now clock =
    add_timer settime q ptr callback (now + interval) interval positive clock

unfoldable pub cancel : TimerQueue → TimerId → Option TimerQueue
cancel q id = cancel_in_loop q id

-- The timer `t` is at the address `ptr` and in the queue; an alarm at any time `later` takes it out if
-- its time has come, and leaves it if not. If the alarm was not later than each timer before, it is not
-- later than each timer now; and if the new timer comes before all others, the alarm goes off when its
-- time comes, but not before 100 microseconds from `clock` on.
abbrev pub Awaits : TimerQueue → ℕ → Timer → ℕ → (TimerQueue × TimerId) → Type 0
Awaits q ptr t clock r =
    IsAdded ptr t.expiration r
    × ((r.0).heap ptr ≡ some t)
    × (r.1.seq ≡ t.sequence)
    × ((later : ℕ)
        → Returns (get_expired (r.0) later) (λ x.
          (mem (key t.expiration ptr) (x.1) ≡ leb t.expiration later)
          × (leb t.expiration later ≡ false → mem (key t.expiration ptr) (x.0).timers ≡ true)))
    × (IsArmed q → IsArmed (r.0))
    × (((time other : ℕ) → mem (key time other) q.timers ≡ true → t.expiration < time)
        → (r.0).armed ≡ some (t.expiration, max 100 (t.expiration - clock) * 1000))

-- The timer of a call: what it runs, when, and how often.
abbrev pub timer : ℕ → ℕ → ℕ → Bool → ℕ → Timer
timer callback time delta repeat seq = record {
  callback = callback;
  expiration = time;
  delta = delta;
  repeat = repeat;
  sequence = seq;
}

added-Awaits :
    (settime : ℕ × ℕ → Bool) (q : TimerQueue) (ptr callback time delta : ℕ) (repeat : Bool)
    (clock : ℕ)
    → Settime settime
    → Inv q
    → q.heap ptr ≡ none
    → ptr < uintptr_max
    → Returns
        (add_timer settime q ptr callback time delta repeat clock)
        (Awaits q ptr (timer callback time delta repeat (q.num_created + 1)) clock)
unfolding new_timer
added-Awaits settime q ptr callback time delta repeat clock ok v free low =
    let r = added settime q ptr callback time delta repeat clock in
    let is_added = added-IsAdded settime q ptr callback time delta repeat clock v free low in
    Returns_of_eq (Awaits q ptr (timer callback time delta repeat (q.num_created + 1)) clock)
      (add_timer-added settime q ptr callback time delta repeat clock ok v free)
      (
        is_added,
        added-heap settime q ptr callback time delta repeat clock,
        refl,
        (λ later.
            Returns-mono (get_expired (r.0) later) (Expired (r.0) later) _
              (get_expired-Expired (r.0) later (is_added.0))
              (λ x e. (
                ground (arith, e.taken (key time ptr), is_added.1),
                λ h. ground (arith, e.left (key time ptr), is_added.1),
              ))),
        added-IsArmed settime q ptr callback time delta repeat clock v,
        added-first settime q ptr callback time delta repeat clock,
      )

-- On a queue whose sets agree, with an address below `UINTPTR_MAX` that no timer uses, and for every
-- `timerfd_settime` that succeeds with nanoseconds below a second: `runAt`, `runAfter` and `runEvery`
-- pass every assertion, meet no `LOG_FATAL` and add a timer with the next sequence number, for the time
-- given, or for the present time and the delay or the interval, which only that of `runEvery` repeats
-- at the interval, where this is positive. Taking the expired timers at any later time takes this one
-- exactly if its time has come. If the alarm was set for a time not later than each timer, it is so
-- afterwards; and if the new timer comes before all others, the alarm is set for its time, but not
-- before 100 microseconds from the time of the call on.
pub run_lem :
    (settime : ℕ × ℕ → Bool) (q : TimerQueue) (ptr callback time now clock : ℕ) (positive : Bool)
    → Settime settime
    → Inv q
    → q.heap ptr ≡ none
    → ptr < uintptr_max
    → Returns
        (run_at settime q ptr callback time clock)
        (Awaits q ptr (timer callback time 0 false (q.num_created + 1)) clock)
      × Returns
          (run_after settime q ptr callback time now clock)
          (Awaits q ptr (timer callback (now + time) 0 false (q.num_created + 1)) clock)
      × Returns
          (run_every settime q ptr callback time positive now clock)
          (Awaits q ptr (timer callback (now + time) time positive (q.num_created + 1)) clock)
unfolding run_at run_after run_every
run_lem settime q ptr callback time now clock positive ok v free low = (
  added-Awaits settime q ptr callback time 0 false clock ok v free low,
  added-Awaits settime q ptr callback (now + time) 0 false clock ok v free low,
  added-Awaits settime q ptr callback (now + time) time positive clock ok v free low,
)
