-- ===== src/ThreadPool/Tests.antt =====
-- Two workers, a bound of one task, and two callers (irono/base/ThreadPool.cc).
use irono.Base.{ℕ, ◌+◌, ◌<◌, ◌≤◌, ◌≡◌, ◌≢◌, ◌⊎◌, refl, true, false, [], ◌∷◌, ◌++◌, length, arith}
use irono.ThreadPool.{ThreadPool, start, run_once, take_once, is_full}
use irono.ThreadPool.Schedule.{Reach, here, next, runs, takes}
use irono.ThreadPool.Order.{taken_in_order}
use irono.ThreadPool.Progress.{never_stuck}

-- One worker sleeps, the first task is in the queue, and the caller with the second waits.
abbrev crowded : ThreadPool ℕ
crowded = run_once (run_once (take_once (start 1 2)) 7) 8

crowded_reached : Reach 1 2 crowded
unfolding start
crowded_reached = next (next (next here (takes (omega arith))) (runs 7)) (runs 8)

taken_in_order_example :
    (crowded.taken ++ crowded.queue ≡ crowded.accepted) × (0 < 1 → length crowded.queue ≤ 1)
taken_in_order_example = taken_in_order crowded_reached

never_stuck_example :
    (crowded.running ≡ true → crowded.queue ≢ [] → 0 < crowded.awake + crowded.not_empty.woken)
    × (crowded.running ≡ true
        → crowded.held ≢ []
        → (is_full crowded ≡ true) ⊎ (0 < crowded.not_full.woken))
    × (crowded.running ≡ false → (crowded.not_empty.sleeping ≡ 0) × (crowded.not_full.sleeping ≡ 0))
never_stuck_example = never_stuck crowded_reached (omega arith)

crowded_queue : crowded.queue ≡ 7 ∷ []
unfolding start run_once take_once
crowded_queue = refl

crowded_held : crowded.held ≡ 8 ∷ []
unfolding start run_once take_once
crowded_held = refl
