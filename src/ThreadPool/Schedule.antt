-- ===== src/ThreadPool/Schedule.antt =====
-- The interleavings of callers, workers and `stop` (irono/base/ThreadPool.cc).
use irono.Base.{ℕ, ◌+◌, ◌-◌, ◌<◌, ◌≡◌, false, List, ◌∷◌, ◌++◌}
use irono.ThreadPool.{
  ThreadPool, Waiters, start, run_once, run_again, take_once, take_again, stop, leave,
}

-- A thread that sleeps may also wake up with no notification.
abbrev pub stir : Waiters → Waiters
stir w = record { sleeping = w.sleeping - 1; woken = w.woken + 1 }

-- What one thread does while it has the lock, or on its own.
pub data Step {ℓ} {F : Type ℓ} (p : ThreadPool F) : ThreadPool F → Type ℓ where
  runs : (task : F) → Step p (run_once p task)
  runs_again :
      (before : List F) (task : F) (after : List F)
      → 0 < p.not_full.woken
      → p.held ≡ before ++ (task ∷ after)
      → Step p (run_again p before task after)
  takes : 0 < p.awake → Step p (take_once p)
  takes_again : 0 < p.not_empty.woken → Step p (take_again p)
  stirs_empty : 0 < p.not_empty.sleeping → Step p (record p { not_empty = stir p.not_empty })
  stirs_full : 0 < p.not_full.sleeping → Step p (record p { not_full = stir p.not_full })
  stops : Step p (stop p)
  leaves : 0 < p.awake → p.running ≡ false → Step p (leave p)

-- The pools that are reached from `start` with a bound and a number of threads.
pub data Reach {ℓ} {F : Type ℓ} (max_queue_size num_threads : ℕ) : ThreadPool F → Type ℓ where
  here : Reach max_queue_size num_threads (start max_queue_size num_threads)
  next :
      {p p' : ThreadPool F}
      → Reach max_queue_size num_threads p
      → Step p p'
      → Reach max_queue_size num_threads p'
