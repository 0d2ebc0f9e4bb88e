-- ===== src/EventLoop/Schedule.antt =====
-- The interleavings of the loop's thread with other threads (irono/net/EventLoop.cc).
use irono.Base.{◌<◌, ◌≡◌, Bool, some, List, [], ◌∷◌, ◌++◌}
use irono.EventLoop.{
  EventLoop, created, polling, handling, draining, create, queue_in_loop, queue_foreign,
  wakeup_foreign, set_quit, enter, handle_read, begin_functors, call_functor, end_functors,
}

-- One step. The loop's thread may queue functors while it runs handlers or functors; another thread
-- may push, write to the eventfd and quit at any time. `poll` may return at any time. Queueing by the
-- loop's own thread before `loop` is not a step.
pub data Step {ℓ} {F : Type ℓ} (l : EventLoop F) : EventLoop F → Type ℓ where
  enters : l.phase ≡ created → Step l (enter l)
  returns : l.phase ≡ polling → Step l (record l { phase = handling })
  reads : (l' : EventLoop F) → l.phase ≡ handling → handle_read l ≡ some l' → Step l l'
  handler_queues : (cb : F) → l.phase ≡ handling → Step l (queue_in_loop l cb)
  begins : l.phase ≡ handling → Step l (begin_functors l)
  calls :
      (cb : F) (rest : List F) → l.phase ≡ draining (cb ∷ rest) → Step l (call_functor l cb rest)
  functor_queues : (cb : F) (rest : List F) → l.phase ≡ draining rest → Step l (queue_in_loop l cb)
  ends : l.phase ≡ draining [] → Step l (end_functors l)
  foreign_queues : (cb : F) → Step l (queue_foreign l cb)
  foreign_wakes : 0 < l.writers → Step l (wakeup_foreign l)
  quits : (in_loop_thread : Bool) → Step l (set_quit l in_loop_thread)

-- The functors that a step queues.
abbrev pub queued {ℓ} : {F : Type ℓ} {l l' : EventLoop F} → Step l l' → List F
queued (handler_queues cb e) = cb ∷ []
queued (functor_queues cb rest e) = cb ∷ []
queued (foreign_queues cb) = cb ∷ []
queued _ = []

-- `Reach posted l`: a schedule from the constructor to `l` in which `posted` were queued, in order.
pub data Reach {ℓ} {F : Type ℓ} : List F → EventLoop F → Type ℓ where
  here : Reach [] create
  next :
      {posted : List F} {l l' : EventLoop F}
      → Reach posted l
      → (s : Step l l') → Reach (posted ++ queued s) l'
