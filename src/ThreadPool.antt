-- ===== src/ThreadPool.antt =====
-- The pool of worker threads of irono/base/ThreadPool.h and ThreadPool.cc: a bounded queue of tasks
-- under one lock, with two condition variables.
pub mod Schedule
pub mod Inv
pub mod Order
pub mod Progress
mod Tests
use irono.Base.{
  ℕ, ◌+◌, ◌-◌, Bool, true, false, not, ◌&&◌, Option, none, some, List, [], ◌∷◌, ◌++◌, length, ltb,
  leb, ◌==◌, if◌then◌else◌,
}

-- The threads that wait at a condition variable: those asleep, and those woken up that have yet to get
-- the lock again.
pub record Waiters : Type 0 where
  pub sleeping : ℕ
  pub woken : ℕ

abbrev pub sleep : Waiters → Waiters
sleep w = record w { sleeping = w.sleeping + 1 }

-- `notify` wakes one thread, if any sleeps.
abbrev pub notify : Waiters → Waiters
notify w = if ltb 0 w.sleeping then record { sleeping = w.sleeping - 1; woken = w.woken + 1 } else w

abbrev pub notify_all : Waiters → Waiters
notify_all w = record { sleeping = 0; woken = w.woken + w.sleeping }

abbrev pub resume : Waiters → Waiters
resume w = record w { woken = w.woken - 1 }

-- `awake` are the workers outside of `wait`. `held` are the tasks of the callers of `run` that wait for
-- room. `accepted` are the tasks put into the queue so far, and `taken` those taken out.
pub record ThreadPool {ℓ} (F : Type ℓ) : Type ℓ where
  pub max_queue_size : ℕ
  pub running : Bool
  pub queue : List F
  pub not_empty : Waiters
  pub not_full : Waiters
  pub awake : ℕ
  pub held : List F
  pub accepted : List F
  pub taken : List F

abbrev pub no_waiters : Waiters
no_waiters = record { sleeping = 0; woken = 0 }

module _ {ℓ} {F : Type ℓ} where
  -- After `start`, with so many threads.
  unfoldable pub start : ℕ → ℕ → ThreadPool F
  start max_queue_size num_threads = record {
    max_queue_size = max_queue_size;
    running = true;
    queue = [];
    not_empty = no_waiters;
    not_full = no_waiters;
    awake = num_threads;
    held = [];
    accepted = [];
    taken = [];
  }

  abbrev pub is_full : ThreadPool F → Bool
  is_full p = ltb 0 p.max_queue_size && leb p.max_queue_size (length p.queue)

  -- `run` on a pool with threads, from the test of its loop on: the caller goes to sleep, or drops the
  -- task of a stopped pool, or puts it into the queue.
  unfoldable pub run_once : ThreadPool F → F → ThreadPool F
  run_once p task =
      if is_full p && p.running
      then record p { not_full = sleep p.not_full; held = task ∷ p.held }
      else (if not p.running then p else record p {
        queue = p.queue ++ (task ∷ []);
        accepted = p.accepted ++ (task ∷ []);
        not_empty = notify p.not_empty;
      })

  -- A caller woken up, whose task stands among those held, tests again.
  unfoldable pub run_again : ThreadPool F → List F → F → List F → ThreadPool F
  run_again p before task after =
      run_once (record p { not_full = resume p.not_full; held = before ++ after }) task

  -- The end of `take` on a queue with a first task.
  abbrev pub take_first : ThreadPool F → F → List F → ThreadPool F
  take_first p task queue = record p {
    queue = queue;
    taken = p.taken ++ (task ∷ []);
    not_full = if ltb 0 p.max_queue_size then notify p.not_full else p.not_full;
  }

  -- `take` by a worker that is awake, from the test of its loop on.
  unfoldable pub take_once : ThreadPool F → ThreadPool F
  take_once p = elim p.queue [
    | [] ↦ if p.running then record p { not_empty = sleep p.not_empty; awake = p.awake - 1 } else p
    | task ∷ queue ↦ take_first p task queue
  ]

  unfoldable pub take_again : ThreadPool F → ThreadPool F
  take_again p = take_once (record p { not_empty = resume p.not_empty; awake = p.awake + 1 })

  unfoldable pub stop : ThreadPool F → ThreadPool F
  stop p = record p {
    running = false;
    not_empty = notify_all p.not_empty;
    not_full = notify_all p.not_full;
  }

  -- A worker leaves the loop of `runInThread`.
  unfoldable pub leave : ThreadPool F → ThreadPool F
  leave p = record p { awake = p.awake - 1 }
