-- ===== src/EventLoopThread/Tests.antt =====
-- A thread that has published its loop and not entered it (irono/net/EventLoopThread.cc).
use irono.Base.{◌≡◌, ◌⊎◌, refl, true, false, Returns}
use irono.EventLoopThread.{
  EventLoopThread, published, looping, has_loop, create, wait, start_loop, publish, destroy,
}
use irono.EventLoopThread.Lifetime.{
  Reach, now, then, starts, waits, publishes, Ends, loop_thread_lem,
}

abbrev up : EventLoopThread
up = record {
  loop = true;
  exiting = false;
  thread = published;
  owner = has_loop;
  quit = false;
  woken = false;
}

reached : Reach up
unfolding create start_loop wait publish
reached = then (then (then now (starts refl refl)) (publishes refl)) (waits refl)

loop_thread_lem_example :
    ((up.thread ≡ published) ⊎ (up.thread ≡ looping)) × Returns (destroy up) (Ends up)
loop_thread_lem_example = loop_thread_lem up reached refl
