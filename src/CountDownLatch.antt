-- ===== src/CountDownLatch.antt =====
-- The latch of irono/base/CountDownLatch.h and CountDownLatch.cc.
pub mod Gate
mod Tests
use irono.Base.{ℕ, zero, suc, ◌+◌, Bool, true, false, ltb, ◌==◌, if◌then◌else◌, ℤ, pos, negsuc}
use irono.ThreadPool.{Waiters, no_waiters, sleep, notify_all, resume}

-- `passed` are the threads for which `wait` has returned, and `counted` the calls of `countDown`.
pub record CountDownLatch : Type 0 where
  pub count : ℤ
  pub condition : Waiters
  pub passed : ℕ
  pub counted : ℕ

unfoldable pub create : ℤ → CountDownLatch
create count = record { count = count; condition = no_waiters; passed = 0; counted = 0 }

abbrev pub is_positive : ℤ → Bool
is_positive (pos n) = ltb 0 n
is_positive (negsuc n) = false

abbrev pub is_zero : ℤ → Bool
is_zero (pos n) = n == 0
is_zero (negsuc n) = false

abbrev pub one_less : ℤ → ℤ
one_less (pos zero) = negsuc zero
one_less (pos (suc n)) = pos n
one_less (negsuc n) = negsuc (suc n)

-- `wait`, from the test of its loop on, under the lock.
unfoldable pub wait_once : CountDownLatch → CountDownLatch
wait_once l =
    if is_positive l.count
    then record l { condition = sleep l.condition }
    else record l { passed = l.passed + 1 }

-- A thread woken up tests again.
unfoldable pub wait_again : CountDownLatch → CountDownLatch
wait_again l = wait_once (record l { condition = resume l.condition })

unfoldable pub count_down : CountDownLatch → CountDownLatch
count_down l =
    let l' = record l { count = one_less l.count; counted = l.counted + 1 } in
    if is_zero l'.count then record l' { condition = notify_all l'.condition } else l'
