-- ===== src/ThreadPool/Order.antt =====
-- The queue keeps its order and its bound (irono/base/ThreadPool.cc).
use irono.Base.{ℕ, ◌<◌, ◌≤◌, ◌≡◌, ◌++◌, length}
use irono.ThreadPool.{ThreadPool}
use irono.ThreadPool.Schedule.{Reach}
use irono.ThreadPool.Inv.{Reach-Inv}

-- In every schedule, with spurious wake-ups: the tasks are taken out in the order in which they
-- were put in, each once, and a bound on the queue is kept.
pub taken_in_order {ℓ} :
    {F : Type ℓ} {m n : ℕ} {p : ThreadPool F}
    → Reach m n p
    → (p.taken ++ p.queue ≡ p.accepted) × (0 < m → length p.queue ≤ m)
taken_in_order r = let v = Reach-Inv r in (v.in_order, v.fits)
