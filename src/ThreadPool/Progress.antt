-- ===== src/ThreadPool/Progress.antt =====
-- No wake-up is lost (irono/base/ThreadPool.cc).
use irono.Base.{
  ℕ, ◌+◌, ◌<◌, ◌≡◌, ◌≢◌, ◌⊎◌, inl, inr, refl, sym, ap, ◌∙◌, true, false, List, [], ◌∷◌, ◌++◌,
  length, ltb, arith, append_assoc, append-nil, Bool-cases,
}
use irono.ThreadPool.{ThreadPool, is_full, take_once, take_again}
use irono.ThreadPool.Schedule.{Reach}
use irono.ThreadPool.Inv.{Inv, Reach-Inv, take_once-Inv, take_again-Inv}

module _ {ℓ} {F : Type ℓ} where
  up :
      {m n : ℕ} (p : ThreadPool F)
      → Inv m n p
      → p.running ≡ true
      → 0 < n
      → 0 < length p.queue
      → 0 < p.awake + p.not_empty.woken
  up p v run some_workers some_tasks = ground arith

  -- In every schedule of a running pool with threads: if there are tasks, a worker is up or has
  -- been woken up; and if callers wait for room, the queue is full or one of them has been woken
  -- up. Once the pool is stopped no worker and no caller sleeps.
  pub never_stuck :
      {m n : ℕ} {p : ThreadPool F}
      → Reach m n p
      → 0 < n
      → (p.running ≡ true → p.queue ≢ [] → 0 < p.awake + p.not_empty.woken)
        × (p.running ≡ true → p.held ≢ [] → (is_full p ≡ true) ⊎ (0 < p.not_full.woken))
        × (p.running ≡ false → (p.not_empty.sleeping ≡ 0) × (p.not_full.sleeping ≡ 0))
  never_stuck {p = p} r some_workers =
      let v = Reach-Inv r in
      (
        λ run h. up p v run some_workers (positive p.queue h),
        λ run h. waits p v (positive p.held h),
        v.stopped,
      )
    where
      positive : (xs : List F) → xs ≢ [] → 0 < length xs
      positive [] h = absurd (h refl)
      positive (x ∷ xs) h = omega arith

      waits :
          {m n : ℕ} (p : ThreadPool F)
          → Inv m n p
          → 0 < length p.held
          → (is_full p ≡ true) ⊎ (0 < p.not_full.woken)
      waits p v h = elim (Bool-cases (ltb 0 p.not_full.woken)) [
        | inl some_woken ↦ inr (ground arith)
        | inr none_woken ↦ inl (ground arith)
      ]

  -- Steps of the workers alone.
  pub data Works : ThreadPool F → ThreadPool F → Type ℓ where
    done : (p : ThreadPool F) → Works p p
    one : (p : ThreadPool F) {q : ThreadPool F} → 0 < p.awake → Works (take_once p) q → Works p q
    one_again :
        (p : ThreadPool F) {q : ThreadPool F}
        → 0 < p.not_empty.woken
        → Works (take_again p) q
        → Works p q

  -- What taking the first task leaves.
  Taken : ThreadPool F → F → List F → ThreadPool F → Type ℓ
  Taken p x xs q = (q.queue ≡ xs) × (q.running ≡ p.running) × (q.taken ≡ p.taken ++ (x ∷ []))

  take_once-Taken :
      (p : ThreadPool F) (x : F) (xs : List F) → p.queue ≡ x ∷ xs → Taken p x xs (take_once p)
  unfolding take_once Taken
  take_once-Taken p x xs e = ground (arith, e)

  take_again-Taken :
      (p : ThreadPool F) (x : F) (xs : List F) → p.queue ≡ x ∷ xs → Taken p x xs (take_again p)
  unfolding take_again Taken
  take_again-Taken p x xs e = take_once-Taken _ x xs e

  -- From a running pool with threads and any tasks in its queue, the workers alone can go on until the
  -- queue is empty, and then have taken exactly those tasks, in order.
  Emptied : ThreadPool F → List F → Type ℓ
  Emptied p xs = (q : ThreadPool F) × Works p q × (q.queue ≡ []) × (q.taken ≡ p.taken ++ xs)

  empties :
      {m n : ℕ} (xs : List F) (p : ThreadPool F)
      → Inv m n p
      → p.running ≡ true
      → 0 < n
      → p.queue ≡ xs
      → Emptied p xs
  unfolding Emptied Taken
  empties [] p v run some_workers e = (p, done p, e, sym (append-nil p.taken))
  empties (x ∷ xs) p v run some_workers e = elim (Bool-cases (ltb 0 p.awake)) [
    | inl awake ↦
        let h : 0 < p.awake = ground arith in
        let (rest, same, taken) = take_once-Taken p x xs e in
        let (q, w, empty, all) =
          empties xs (take_once p) (take_once-Inv p v h) (same ∙ run) some_workers rest in
        (q, one p h w, empty, all ∙ ap (λ ys. ys ++ xs) taken ∙ append_assoc p.taken (x ∷ []) xs)
    | inr asleep ↦
        let h : 0 < p.not_empty.woken =
          ground (arith, up p v run some_workers (ground (arith, e))) in
        let (rest, same, taken) = take_again-Taken p x xs e in
        let (q, w, empty, all) =
          empties xs (take_again p) (take_again-Inv p v h) (same ∙ run) some_workers rest in
        (
          q,
          one_again p h w,
          empty,
          all ∙ ap (λ ys. ys ++ xs) taken ∙ append_assoc p.taken (x ∷ []) xs,
        )
  ]

  -- From every reachable state of a running pool with threads, the workers can go on without any caller
  -- until the queue is empty, and have then taken exactly the tasks that it held, in order.
  pub queue_drains :
      {m n : ℕ} {p : ThreadPool F}
      → Reach m n p
      → p.running ≡ true
      → 0 < n
      → (q : ThreadPool F) × Works p q × (q.queue ≡ []) × (q.taken ≡ p.taken ++ p.queue)
  unfolding Emptied
  queue_drains {p = p} r run some_workers = empties p.queue p (Reach-Inv r) run some_workers refl
