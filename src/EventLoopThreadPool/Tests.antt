-- ===== src/EventLoopThreadPool/Tests.antt =====
-- A pool of three loops (irono/net/EventLoopThreadPool.cc).
use irono.Base.{ℕ, ◌+◌, ◌%◌, ◌≡◌, refl, true, some, [], ◌∷◌, arith}
use irono.EventLoopThreadPool.{EventLoopThreadPool, take_loops}
use irono.EventLoopThreadPool.RoundRobin.{in_turn, take_loops_lem}

abbrev three : EventLoopThreadPool ℕ
three = record {
  base_loop = 0;
  started = true;
  num_threads = 3;
  next = 1;
  loops = 10 ∷ 11 ∷ 12 ∷ [];
  init_calls = [];
}

take_loops_lem_example :
    take_loops 4 three ≡ some (in_turn three.loops 0 1 4, record three { next = (1 + 4) % 3 })
take_loops_lem_example = take_loops_lem 4 three (omega arith)

-- The turns of `three`.
turns : in_turn three.loops 0 1 4 ≡ 11 ∷ 12 ∷ 10 ∷ 11 ∷ []
turns = refl
