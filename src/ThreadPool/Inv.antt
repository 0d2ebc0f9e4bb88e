-- ===== src/ThreadPool/Inv.antt =====
-- What holds between the steps (irono/base/ThreadPool.cc).
use irono.Base.{
  ℕ, ◌+◌, ◌<◌, ◌≤◌, ◌≡◌, ap, true, false, List, [], ◌∷◌, ◌++◌, length, arith, length-append,
  List-cases, inl, inr, append_assoc,
}
use irono.ThreadPool.{ThreadPool, start, run_once, run_again, take_once, take_again, stop, leave}
use irono.ThreadPool.Schedule.{
  Step, runs, runs_again, takes, takes_again, stirs_empty, stirs_full, stops, leaves, Reach, here,
  next,
}

module _ {ℓ} {F : Type ℓ} where
  pub record Inv (max_queue_size num_threads : ℕ) (p : ThreadPool F) : Type ℓ where
    pub bound : p.max_queue_size ≡ max_queue_size
    pub fits : 0 < max_queue_size → length p.queue ≤ max_queue_size
    pub in_order : p.taken ++ p.queue ≡ p.accepted
    -- Workers sleep only if enough others are up for all tasks in the queue.
    pub served : 0 < p.not_empty.sleeping → length p.queue ≤ p.not_empty.woken + p.awake
    -- Callers sleep only if the queue is full but for the places that others were woken up for.
    pub blocked : 0 < p.not_full.sleeping → max_queue_size ≤ length p.queue + p.not_full.woken
    pub bounded : 0 < p.not_full.sleeping → 0 < max_queue_size
    pub callers : length p.held ≡ p.not_full.sleeping + p.not_full.woken
    pub workers :
        p.running ≡ true → p.awake + p.not_empty.sleeping + p.not_empty.woken ≡ num_threads
    pub stopped : p.running ≡ false → (p.not_empty.sleeping ≡ 0) × (p.not_full.sleeping ≡ 0)

  run_once-Inv : {m n : ℕ} (p : ThreadPool F) (task : F) → Inv m n p → Inv m n (run_once p task)
  unfolding run_once
  run_once-Inv p task v =
      ground (arith, length-append p.queue (task ∷ []), append_assoc p.taken p.queue (task ∷ []))

  pub take_once-Inv : {m n : ℕ} (p : ThreadPool F) → Inv m n p → 0 < p.awake → Inv m n (take_once p)
  unfolding take_once
  take_once-Inv p v h = elim (List-cases p.queue) [
    | inl e ↦ ground (arith, e)
    | inr (task, rest, e) ↦ ground (arith, e, append_assoc p.taken (task ∷ []) rest)
  ]

  run_again-Inv :
      {m n : ℕ} (p : ThreadPool F) (before : List F) (task : F) (after : List F)
      → Inv m n p
      → 0 < p.not_full.woken
      → p.held ≡ before ++ (task ∷ after)
      → Inv m n (run_again p before task after)
  unfolding run_again run_once
  run_again-Inv p before task after v h e = ground (
    arith,
    ap length e,
    length-append before after,
    length-append before (task ∷ after),
    length-append p.queue (task ∷ []),
    append_assoc p.taken p.queue (task ∷ []),
  )

  pub take_again-Inv :
      {m n : ℕ} (p : ThreadPool F) → Inv m n p → 0 < p.not_empty.woken → Inv m n (take_again p)
  unfolding take_again
  take_again-Inv p v h = take_once-Inv _ (ground arith) (ground arith)

  Step-Inv : {m n : ℕ} {p p' : ThreadPool F} → Step p p' → Inv m n p → Inv m n p'
  unfolding stop leave
  Step-Inv {p = p} (runs task) v = run_once-Inv p task v
  Step-Inv {p = p} (runs_again before task after h e) v = run_again-Inv p before task after v h e
  Step-Inv {p = p} (takes h) v = take_once-Inv p v h
  Step-Inv {p = p} (takes_again h) v = take_again-Inv p v h
  Step-Inv {p = p} (stirs_empty h) v = ground arith
  Step-Inv {p = p} (stirs_full h) v = ground arith
  Step-Inv {p = p} stops v = ground arith
  Step-Inv {p = p} (leaves h e) v = ground arith

  pub Reach-Inv : {m n : ℕ} {p : ThreadPool F} → Reach m n p → Inv m n p
  unfolding start
  Reach-Inv here = ground arith
  Reach-Inv (next r s) = Step-Inv s (Reach-Inv r)
