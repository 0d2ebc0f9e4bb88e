-- ===== src/EventLoopThread.antt =====
-- A thread with a loop of its own (irono/net/EventLoopThread.h and EventLoopThread.cc), as far as its
-- start and its end go.
pub mod Lifetime
mod Tests
use irono.Base.{
  Bool, true, false, not, ◌||◌, Option, none, some, if◌then◌else◌, assert, ◌>>=◌, ◌>>◌,
}

-- Where `threadFunc` is: not begun, before it has published the loop, before `loop.loop()`, in it, and
-- at its end, where the loop is destroyed.
pub data ThreadAt : Type 0 where
  not_started starting published looping finished : ThreadAt

-- Where the owner is: before `startLoop`, in its wait, after it, in the destructor between the two
-- statements of `EventLoop::quit`, in its join, and after that.
pub data OwnerAt : Type 0 where
  before waiting has_loop quitting joining joined : OwnerAt

-- `loop` is `loop_ != NULL`, `quit` and `woken` are the loop's `quit_` and what its eventfd has.
pub record EventLoopThread : Type 0 where
  pub loop : Bool
  pub exiting : Bool
  pub thread : ThreadAt
  pub owner : OwnerAt
  pub quit : Bool
  pub woken : Bool

unfoldable pub create : EventLoopThread
create = record {
  loop = false;
  exiting = false;
  thread = not_started;
  owner = before;
  quit = false;
  woken = false;
}

abbrev pub is_started : ThreadAt → Bool
is_started not_started = false
is_started starting = true
is_started published = true
is_started looping = true
is_started finished = true

-- The test of the wait in `startLoop`.
unfoldable pub wait : EventLoopThread → EventLoopThread
wait t = record t { owner = if t.loop then has_loop else waiting }

unfoldable pub start_loop : EventLoopThread → Option EventLoopThread
unfolding wait
start_loop t = do assert (not (is_started t.thread)); some (wait (record t { thread = starting }))

-- `threadFunc`, up to the end of its critical section.
unfoldable pub publish : EventLoopThread → EventLoopThread
publish t = record t { loop = true; thread = published }

-- The begin of `EventLoop::loop`, which resets `quit_`.
unfoldable pub enter_loop : EventLoopThread → EventLoopThread
enter_loop t = record t { quit = false; thread = looping }

-- A round of the loop: poll returns, the eventfd is read, and `quit_` is tested.
unfoldable pub turn : EventLoopThread → EventLoopThread
turn t = record t { woken = false; thread = if t.quit then finished else looping }

-- The destructor, up to `quit_ = true` in `EventLoop::quit`. A loop that was never published is a null
-- pointer.
unfoldable pub destroy : EventLoopThread → Option EventLoopThread
destroy t = do assert t.loop; some (record t { exiting = true; quit = true; owner = quitting })

abbrev pub is_finished : ThreadAt → Bool
is_finished not_started = false
is_finished starting = false
is_finished published = false
is_finished looping = false
is_finished finished = true

-- The rest of `quit`, the wakeup, in the owner's thread. At the end of the thread the loop is gone, and
-- the wakeup would use it: `none`.
unfoldable pub wake : EventLoopThread → Option EventLoopThread
wake t = do assert (not (is_finished t.thread)); some (record t { woken = true; owner = joining })

-- The join returns when the thread has ended.
unfoldable pub join : EventLoopThread → EventLoopThread
join t = record t { owner = if is_finished t.thread then joined else joining }
