-- ===== src/CountDownLatch/Tests.antt =====
-- A thread waits for two others (irono/base/CountDownLatch.cc).
use irono.Base.{◌≡◌, refl, pos, arith}
use irono.CountDownLatch.{CountDownLatch, create, wait_once, wait_again, count_down}
use irono.CountDownLatch.Gate.{Reach, here, next, waits, waits_again, counts}

abbrev counted : CountDownLatch
counted = count_down (count_down (wait_once (create (pos 2))))

abbrev through : CountDownLatch
through = wait_again counted

reached : Reach 2 through
unfolding create wait_once count_down
reached = next (next (next (next here waits) counts) counts) (waits_again (omega arith))

all_through : through.passed ≡ 1
unfolding create wait_once count_down wait_again
all_through = refl
