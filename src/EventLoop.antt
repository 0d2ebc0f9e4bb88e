-- ===== src/EventLoop.antt =====
-- The loop of irono/net/EventLoop.h and EventLoop.cc: its queue of functors, the eventfd that wakes
-- it, and the order of its rounds. Channels and timers are files of their own.
pub mod Schedule
pub mod Inv
pub mod Timers
mod Tests
use irono.Base.{
  ℕ, ◌+◌, ◌-◌, Bool, true, false, not, ◌||◌, ◌&&◌, Option, none, some, List, [], ◌∷◌, ◌++◌, ltb,
  if◌then◌else◌, assert, ◌>>=◌, ◌>>◌,
}

-- Where the loop's thread stands: before `loop`, in `poll`, in the channels' handlers, in the functors
-- that `doPendingFunctors` has swapped out and not yet called, or behind the loop.
pub data Phase {ℓ} (F : Type ℓ) : Type ℓ where
  created : Phase F
  polling : Phase F
  handling : Phase F
  draining : List F → Phase F
  stopped : Phase F

-- `wakeups` is the counter of the eventfd. `writers` are the other threads that have pushed a functor
-- and have yet to write to the eventfd. `ran` are the functors called so far, by the queue.
pub record EventLoop {ℓ} (F : Type ℓ) : Type ℓ where
  pub phase : Phase F
  pub quit : Bool
  pub calling_pending_functors : Bool
  pub pending_functors : List F
  pub wakeups : ℕ
  pub writers : ℕ
  pub ran : List F

module _ {ℓ} {F : Type ℓ} where
  unfoldable pub create : EventLoop F
  create = record {
    phase = created;
    quit = false;
    calling_pending_functors = false;
    pending_functors = [];
    wakeups = 0;
    writers = 0;
    ran = [];
  }

  abbrev pub push : EventLoop F → F → EventLoop F
  push l cb = record l { pending_functors = l.pending_functors ++ (cb ∷ []) }

  abbrev pub wakeup : EventLoop F → EventLoop F
  wakeup l = record l { wakeups = l.wakeups + 1 }

  -- The test after the push in `queueInLoop`.
  abbrev pub needs_wakeup : EventLoop F → Bool → Bool
  needs_wakeup l in_loop_thread = not in_loop_thread || l.calling_pending_functors

  -- `queueInLoop` by the loop's own thread.
  unfoldable pub queue_in_loop : EventLoop F → F → EventLoop F
  queue_in_loop l cb = let l' = push l cb in if needs_wakeup l' true then wakeup l' else l'

  -- The two parts of `queueInLoop` by another thread: the push under the lock, and the write.
  unfoldable pub queue_foreign : EventLoop F → F → EventLoop F
  queue_foreign l cb =
      let l' = push l cb in
      if needs_wakeup l' false then record l' { writers = l'.writers + 1 } else l'

  unfoldable pub wakeup_foreign : EventLoop F → EventLoop F
  wakeup_foreign l = record (wakeup l) { writers = l.writers - 1 }

  -- `runInLoop` by the loop's own thread calls the functor, here `run`, at once.
  unfoldable pub run_in_loop : Bool → (EventLoop F → EventLoop F) → EventLoop F → F → EventLoop F
  run_in_loop in_loop_thread run l cb = if in_loop_thread then run l else queue_foreign l cb

  -- `quit`: another thread also wakes the loop.
  unfoldable pub set_quit : EventLoop F → Bool → EventLoop F
  set_quit l in_loop_thread =
      let l' = record l { quit = true } in if not in_loop_thread then wakeup l' else l'

  -- The entry of `loop`.
  unfoldable pub enter : EventLoop F → EventLoop F
  enter l = record l { phase = polling; quit = false }

  -- The read callback of the wakeup channel: the read sets the counter back. An empty counter would
  -- make it fail, which is fatal.
  unfoldable pub handle_read : EventLoop F → Option (EventLoop F)
  handle_read l = do assert (ltb 0 l.wakeups); some (record l { wakeups = 0 })

  -- `doPendingFunctors` swaps the queue out, calls the functors, and ends.
  unfoldable pub begin_functors : EventLoop F → EventLoop F
  begin_functors l = record l {
    phase = draining l.pending_functors;
    calling_pending_functors = true;
    pending_functors = [];
  }

  unfoldable pub call_functor : EventLoop F → F → List F → EventLoop F
  call_functor l cb rest = record l { phase = draining rest; ran = l.ran ++ (cb ∷ []) }

  -- The end of a round, and the test of `while (!quit_)`.
  unfoldable pub end_functors : EventLoop F → EventLoop F
  end_functors l = record l {
    phase = if l.quit then stopped else polling;
    calling_pending_functors = false;
  }
