-- ===== src/EventLoop/Tests.antt =====
-- A short schedule: another thread queues a functor while the loop is at `poll`
-- (irono/net/EventLoop.cc).
use irono.TimerQueue
use irono.TimerQueue.Inv.{create-Inv}
use irono.EventLoop.Timers.{run_at, run_after, run_every, timer, Awaits, run_lem}
use irono.Base.{Returns, arith, true, false, Bool, ltb, ℕ, ◌+◌, ◌<◌, ◌≡◌, refl, [], ◌∷◌, ◌++◌}
use irono.EventLoop.{EventLoop, create, enter, queue_foreign}
use irono.EventLoop.Schedule.{enters, foreign_queues, Reach, here, next}
use irono.EventLoop.Inv.{swapped, never_stranded, called_in_order}

abbrev waiting : EventLoop ℕ
waiting = queue_foreign (enter create) 4

waiting_reached : Reach (4 ∷ []) waiting
unfolding create
waiting_reached = next (next here (enters refl)) (foreign_queues 4)

never_stranded_example : 0 < waiting.wakeups + waiting.writers
unfolding create enter queue_foreign
never_stranded_example = never_stranded waiting_reached refl (λ h. cc)

called_in_order_example :
    waiting.ran ++ (swapped waiting.phase ++ waiting.pending_functors) ≡ 4 ∷ []
called_in_order_example = called_in_order waiting_reached

-- `EINVAL` for a second or more of nanoseconds.
abbrev settime : ℕ × ℕ → Bool
settime t = ltb t.1 1000000000

run_lem_example :
    Returns
      (run_at settime TimerQueue.create 64 1 3000 2001)
      (Awaits TimerQueue.create 64 (timer 1 3000 0 false 1) 2001)
    × Returns
        (run_after settime TimerQueue.create 64 1 3000 2000 2001)
        (Awaits TimerQueue.create 64 (timer 1 5000 0 false 1) 2001)
    × Returns
        (run_every settime TimerQueue.create 64 1 3000 true 2000 2001)
        (Awaits TimerQueue.create 64 (timer 1 5000 3000 true 1) 2001)
unfolding TimerQueue.create
run_lem_example =
    run_lem settime TimerQueue.create 64 1 3000 2000 2001 true (λ t h. ground arith) create-Inv refl
      (omega arith)
