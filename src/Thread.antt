-- ===== src/Thread.antt =====
-- A thread of irono/base/Thread.h and Thread.cc: its start, which waits for the new thread to report,
-- its join and its destructor.
pub mod Start
mod Tests
use irono.Base.{
  ℕ, Bool, true, false, not, ◌&&◌, Option, none, some, ltb, if◌then◌else◌, assert, ◌>>=◌, ◌>>◌, pos,
}
use irono.CountDownLatch
use irono.CountDownLatch.{CountDownLatch, count_down, wait_once, wait_again}

-- Where the new thread is: not created, before and after it has written its number, past the latch, at
-- its end.
pub data RunAt : Type 0 where
  not_created created reported counted ended : RunAt

-- Where the owner is: before `start`, between `pthread_create` and the latch, in the latch, after `start`,
-- and after `join`.
pub data OwnerAt : Type 0 where
  outside creating waiting started_up joined_up : OwnerAt

pub record Thread : Type 0 where
  pub started : Bool
  pub joined : Bool
  pub detached : Bool
  pub tid : ℕ
  pub latch : CountDownLatch
  pub run : RunAt
  pub owner : OwnerAt

unfoldable pub create : Thread
create = record {
  started = false;
  joined = false;
  detached = false;
  tid = 0;
  latch = CountDownLatch.create (pos 1);
  run = not_created;
  owner = outside;
}

-- `start` up to the latch. `created_ok` is the result of `pthread_create`.
unfoldable pub start : Thread → Bool → Option Thread
start t created_ok = do
  assert (not t.started)
  let begun = record t { started = true }
  some (
      if created_ok
      then record begun { run = created; owner = creating }
      else record begun { started = false })

-- The owner takes the latch's lock and tests the count for the first time.
unfoldable pub enter_latch : Thread → Thread
unfolding wait_once
enter_latch t = record t { latch = wait_once t.latch; owner = waiting }

unfoldable pub start_again : Thread → Thread
unfolding wait_again
start_again t = record t { latch = wait_again t.latch }

-- The end of `start`, when the latch has let the owner through.
unfoldable pub finish_start : Thread → Option Thread
finish_start t = do assert (ltb 0 t.tid); some (record t { owner = started_up })

-- `runInThread`: the number, the latch, and the function.
unfoldable pub report : Thread → ℕ → Thread
report t tid = record t { tid = tid; run = reported }

unfoldable pub leave_latch : Thread → Thread
unfolding count_down
leave_latch t = record t { latch = count_down t.latch; run = counted }

unfoldable pub end_run : Thread → Thread
end_run t = record t { run = ended }

-- `join`, up to `pthread_join`.
unfoldable pub join : Thread → Option Thread
join t = do assert t.started; assert (not t.joined); some (record t { joined = true })

-- `pthread_join` comes back when the thread has ended.
unfoldable pub finish_join : Thread → Thread
finish_join t = record t { owner = joined_up }

-- The destructor.
unfoldable pub destroy : Thread → Thread
destroy t = if t.started && not t.joined then record t { detached = true } else t
