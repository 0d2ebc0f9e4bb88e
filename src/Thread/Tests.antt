-- ===== src/Thread/Tests.antt =====
-- A thread that reports while its owner sleeps (irono/base/Thread.cc).
use irono.Base.{◌<◌, ◌≡◌, ◌⊎◌, refl, true, false, some, none, Option, Returns, arith}
use irono.CountDownLatch
use irono.CountDownLatch.{CountDownLatch, wait_once, wait_again, count_down}
use irono.Thread.{
  Thread, counted, ended, not_created, create, start, enter_latch, start_again, finish_start,
  report, leave_latch,
}
use irono.Thread.Start.{Reach, here, next, starts, enters, reports, counts, waits, start_lem}

abbrev ready : Option Thread → Thread
ready none = create
ready (some t) = t

abbrev asleep : Thread
asleep = enter_latch (ready (start create true))

abbrev up : Thread
up = start_again (leave_latch (report asleep 42))

reached : Reach up
unfolding create start enter_latch report leave_latch CountDownLatch.create wait_once count_down
reached =
    next
      (next
        (next (next (next here (starts true refl refl)) (enters refl))
          (reports 42 refl (omega arith)))
        (counts refl))
      (waits refl (omega arith))

start_lem_example :
    (0 < up.latch.passed → Returns (finish_start up) (λ t'. 0 < t'.tid))
    × ((up.run ≡ counted) ⊎ (up.run ≡ ended) → up.latch.condition.sleeping ≡ 0)
    × (up.started ≡ false → up.run ≡ not_created)
start_lem_example = start_lem up reached
