-- ===== src/EventLoopThreadPool.antt =====
-- The pool of I/O loops of irono/net/EventLoopThreadPool.h and EventLoopThreadPool.cc.
pub mod RoundRobin
mod Tests
use irono.Base.{
  ℕ, zero, suc, ◌+◌, Bool, true, false, not, ◌&&◌, Option, none, some, List, [], ◌∷◌, length,
  get_elem?, leb, ◌==◌, if◌then◌else◌, assert, ◌>>=◌, ◌>>◌,
}

-- `L` stands for a pointer to a loop. `init_calls` are the loops that the init callback got.
pub record EventLoopThreadPool (L : Type 0) : Type 0 where
  pub base_loop : L
  pub started : Bool
  pub num_threads : ℕ
  pub next : ℕ
  pub loops : List L
  pub init_calls : List L

abbrev advance : ℕ → ℕ → ℕ
advance next size = if leb size (next + 1) then 0 else next + 1

module _ {L : Type 0} where
  unfoldable pub create : L → EventLoopThreadPool L
  create base = record {
    base_loop = base;
    started = false;
    num_threads = 0;
    next = 0;
    loops = [];
    init_calls = [];
  }

  unfoldable pub set_thread_num : EventLoopThreadPool L → ℕ → EventLoopThreadPool L
  set_thread_num p n = record p { num_threads = n }

  -- `spawned` are the loops that the new threads start, one for each. A thread calls the init callback
  -- with its own loop.
  unfoldable pub start : EventLoopThreadPool L → Bool → List L → Option (EventLoopThreadPool L)
  start p has_callback spawned = do
    assert (not p.started)
    assert (length spawned == p.num_threads)
    let own = if has_callback && p.num_threads == 0 then p.base_loop ∷ [] else []
    let calls = if has_callback && not (p.num_threads == 0) then spawned else own
    some (record p { started = true; loops = spawned; init_calls = calls })

  -- `none` is a read past the end of `loops_`.
  unfoldable pub get_next_loop : EventLoopThreadPool L → Option (L × EventLoopThreadPool L)
  get_next_loop p =
      if length p.loops == 0
      then some (p.base_loop, p)
      else (get_elem? p.loops p.next >>= λ loop.
          some (loop, record p { next = advance p.next (length p.loops) }))

  -- `n` calls in a row.
  unfoldable pub take_loops : ℕ → EventLoopThreadPool L → Option (List L × EventLoopThreadPool L)
  take_loops zero p = some ([], p)
  take_loops (suc n) p =
      get_next_loop p >>= λ r. take_loops n r.1 >>= λ rest. some (r.0 ∷ rest.0, rest.1)
