-- ===== src/TimerQueue/Tests.antt =====
-- One timer is added to an empty queue, cancelled, and taken out when it is due
-- (irono/net/TimerQueue.cc).
use irono.Base.{
  ℕ, Bool, Option, ltb, ◌≡◌, ◌≢◌, refl, false, none, some, [], ◌∷◌, if◌then◌else◌, ◌==◌, arith,
  Returns,
}
use irono.TimerQueue.SortedSet.{mem}
use irono.TimerQueue.{Timer, TimerQueue, get_expired, handle_read, TimerId, create, cancel_in_loop}
use irono.TimerQueue.Inv.{Inv, key}
use irono.TimerQueue.Expire.{Expired, get_expired-Expired}
use irono.TimerQueue.Handle.{handle_read-Inv, cancel_in_loop-Calm}
use irono.TimerQueue.Cancel.{IsCancelled, cancel_in_loop-IsCancelled}

abbrev timer_at_64 : Timer
timer_at_64 = record { callback = 1; expiration = 5000; delta = 0; repeat = false; sequence = 1 }

abbrev one_timer : TimerQueue
one_timer = record create {
  timers = key 5000 64 ∷ [];
  active_timers = key 64 1 ∷ [];
  heap = λ p. if p == 64 then some timer_at_64 else none;
  num_created = 1;
}

one_timer-Inv : Inv one_timer
unfolding mem create
one_timer-Inv = record {
  timers_sorted = (tt, tt);
  active_sorted = (tt, tt);
  sizes = refl;
  scheduled = λ w p h. (timer_at_64, ground arith, ground arith, ground arith, ground arith);
  active = λ p s h. (timer_at_64, ground arith, ground arith, ground arith);
}

-- `EINVAL` for a second or more of nanoseconds.
abbrev settime : ℕ × ℕ → Bool
settime t = ltb t.1 1000000000

abbrev its_id : TimerId
its_id = record { timer = 64; seq = 1 }

cancel_in_loop-IsCancelled_example :
    Returns (cancel_in_loop one_timer its_id) (IsCancelled one_timer its_id)
cancel_in_loop-IsCancelled_example = cancel_in_loop-IsCancelled one_timer its_id one_timer-Inv

get_expired-Expired_example : Returns (get_expired one_timer 6000) (Expired one_timer 6000)
get_expired-Expired_example = get_expired-Expired one_timer 6000 one_timer-Inv

-- Every callback cancels the timer `its_id`, even the one that runs.
handle_read-Inv_example :
    Returns
      (handle_read settime (λ callback q. cancel_in_loop q its_id) one_timer (some 8) 6000 6001)
      Inv
    × ((n : Option ℕ)
        → n ≢ some 8
        → handle_read settime (λ callback q. cancel_in_loop q its_id) one_timer n 6000 6001 ≡ none)
handle_read-Inv_example =
    handle_read-Inv settime (λ callback q. cancel_in_loop q its_id) one_timer 6000 6001
      (λ t h. ground arith) (λ es callback p c. cancel_in_loop-Calm its_id es p c) one_timer-Inv
