-- ===== src/EventLoop/Inv.antt =====
-- No functor is stranded, and none is lost, duplicated or overtaken (irono/net/EventLoop.cc).
use irono.Base.{
  ◌+◌, ◌<◌, ◌≡◌, ◌≢◌, refl, sym, ap, ◌∙◌, Bool, true, false, List, [], ◌∷◌, ◌++◌, arith,
  append_assoc, append-nil,
}
use irono.EventLoop.{
  EventLoop, Phase, created, polling, draining, create, queue_in_loop, queue_foreign,
  wakeup_foreign, set_quit, enter, handle_read, begin_functors, call_functor, end_functors,
}
use irono.EventLoop.Schedule.{
  Step, enters, returns, reads, handler_queues, begins, calls, functor_queues, ends, foreign_queues,
  foreign_wakes, quits, queued, Reach, here, next,
}

abbrev pub is_draining {ℓ} : {F : Type ℓ} → Phase F → Bool
is_draining (draining fs) = true
is_draining _ = false

-- The functors swapped out and not yet called.
abbrev pub swapped {ℓ} : {F : Type ℓ} → Phase F → List F
swapped (draining fs) = fs
swapped _ = []

-- Phases in which the loop may reach `poll` without draining the queue first.
abbrev pub may_block {ℓ} : {F : Type ℓ} → Phase F → Bool
may_block created = true
may_block polling = true
may_block (draining fs) = true
may_block _ = false

module _ {ℓ} {F : Type ℓ} where
  -- With functors in the queue, the eventfd is readable, or a thread is about to make it so.
  pub record Awake (l : EventLoop F) : Type ℓ where
    pub calling : l.calling_pending_functors ≡ is_draining l.phase
    pub awake : may_block l.phase ≡ true → l.pending_functors ≢ [] → 0 < l.wakeups + l.writers

  Step-Awake : {l l' : EventLoop F} → Step l l' → Awake l → Awake l'
  unfolding enter handle_read queue_in_loop queue_foreign wakeup_foreign set_quit begin_functors
      call_functor end_functors
  Step-Awake (enters e) a = ground arith
  Step-Awake (returns e) a = ground arith
  Step-Awake (reads l' e r) a = ground arith
  Step-Awake (handler_queues cb e) a = ground arith
  Step-Awake (begins e) a = ground arith
  Step-Awake (calls cb rest e) a = ground arith
  Step-Awake (functor_queues cb rest e) a = ground arith
  Step-Awake (ends e) a = ground arith
  Step-Awake (foreign_queues cb) a = ground arith
  Step-Awake (foreign_wakes h) a = ground arith
  Step-Awake (quits b) a = ground arith

  -- Called, swapped out, or in the queue: where each functor is.
  abbrev pub everything : EventLoop F → List F
  everything l = l.ran ++ (swapped l.phase ++ l.pending_functors)

  snoc-ne-nil : (xs : List F) (cb : F) → xs ++ (cb ∷ []) ≢ []
  snoc-ne-nil [] cb h = cc
  snoc-ne-nil (x ∷ xs) cb h = cc

  push_last :
      (xs ys zs : List F) (cb : F)
      → xs ++ (ys ++ (zs ++ (cb ∷ []))) ≡ (xs ++ (ys ++ zs)) ++ (cb ∷ [])
  push_last xs ys zs cb = simp append_assoc

  Step-everything : {l l' : EventLoop F} (s : Step l l') → everything l' ≡ everything l ++ queued s
  unfolding enter handle_read queue_in_loop queue_foreign wakeup_foreign set_quit begin_functors
      call_functor end_functors
  Step-everything {l} (enters e) = ground (arith, append-nil (everything l))
  Step-everything {l} (returns e) = ground (arith, append-nil (everything l))
  Step-everything {l} (reads l' e r) = ground (arith, append-nil (everything l))
  Step-everything {l} (handler_queues cb e) =
      ground (arith, push_last l.ran (swapped l.phase) l.pending_functors cb)
  Step-everything {l} (begins e) =
      ground (arith, append-nil l.pending_functors, append-nil (everything l))
  Step-everything {l} (calls cb rest e) =
      ground (
        arith,
        append_assoc l.ran (cb ∷ []) (rest ++ l.pending_functors),
        append-nil (everything l),
      )
  Step-everything {l} (functor_queues cb rest e) =
      ground (arith, push_last l.ran (swapped l.phase) l.pending_functors cb)
  Step-everything {l} (ends e) = ground (arith, append-nil (everything l))
  Step-everything {l} (foreign_queues cb) = push_last l.ran (swapped l.phase) l.pending_functors cb
  Step-everything {l} (foreign_wakes h) = sym (append-nil (everything l))
  Step-everything {l} (quits b) = ground (arith, append-nil (everything l))

  Reach-Awake : {posted : List F} {l : EventLoop F} → Reach posted l → Awake l
  unfolding create
  Reach-Awake here = ground arith
  Reach-Awake (next r s) = Step-Awake s (Reach-Awake r)

  Reach-everything : {posted : List F} {l : EventLoop F} → Reach posted l → everything l ≡ posted
  unfolding create
  Reach-everything here = refl
  Reach-everything (next r s) = Step-everything s ∙ ap (λ xs. xs ++ queued s) (Reach-everything r)

  -- In every schedule in which the loop's own thread queues functors only while it handles events
  -- or calls functors: when the loop is at `poll` with functors in its queue, its eventfd is
  -- readable, so that `poll` returns, or a thread that has queued one is about to write to it.
  pub never_stranded :
      {posted : List F} {l : EventLoop F}
      → Reach posted l
      → l.phase ≡ polling
      → l.pending_functors ≢ []
      → 0 < l.wakeups + l.writers
  never_stranded r e h = (Reach-Awake r).awake (ap may_block e) h

  -- In every schedule the functors queued so far are, in the order of the pushes, those called, those
  -- swapped out and not yet called, and those in the queue.
  pub called_in_order :
      {posted : List F} {l : EventLoop F}
      → Reach posted l
      → l.ran ++ (swapped l.phase ++ l.pending_functors) ≡ posted
  called_in_order r = Reach-everything r

  -- A functor that the loop's own thread queues before `loop` runs, as a thread's init callback
  -- may, wakes nobody: the loop goes to `poll` with the functor in its queue, its eventfd as it was
  -- before, and no other thread about to write to it that was not before.
  pub queue_before_loop :
      (l : EventLoop F) (cb : F)
      → l.phase ≡ created
      → l.calling_pending_functors ≡ false
      → let l' = enter (queue_in_loop l cb) in
        (l'.phase ≡ polling)
        × (l'.pending_functors ≢ [])
        × (l'.wakeups ≡ l.wakeups)
        × (l'.writers ≡ l.writers)
  unfolding enter queue_in_loop
  queue_before_loop l cb e c = ground (arith, snoc-ne-nil l.pending_functors cb)
