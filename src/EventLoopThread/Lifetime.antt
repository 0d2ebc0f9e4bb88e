-- ===== src/EventLoopThread/Lifetime.antt =====
-- When the loop lives, and whether the thread ends (irono/net/EventLoopThread.cc).
use irono.Base.{◌≡◌, ◌⊎◌, refl, Bool, true, false, not, ◌&&◌, some, none, arith, Returns}
use irono.EventLoopThread.{
  EventLoopThread, ThreadAt, OwnerAt, not_started, starting, published, looping, finished, before,
  waiting, has_loop, quitting, joining, joined, create, wait, start_loop, publish, enter_loop, turn,
  destroy, wake, join, is_started,
}

-- Both threads, in any order. A round of the loop may also be for another event than a wakeup.
pub data Step (t : EventLoopThread) : EventLoopThread → Type 0 where
  starts : {t' : EventLoopThread} → t.owner ≡ before → start_loop t ≡ some t' → Step t t'
  waits : t.owner ≡ waiting → Step t (wait t)
  publishes : t.thread ≡ starting → Step t (publish t)
  enters : t.thread ≡ published → Step t (enter_loop t)
  turns : t.thread ≡ looping → Step t (turn t)
  destroys : {t' : EventLoopThread} → t.owner ≡ has_loop → destroy t ≡ some t' → Step t t'
  wakes : {t' : EventLoopThread} → t.owner ≡ quitting → wake t ≡ some t' → Step t t'
  joins : t.owner ≡ joining → Step t (join t)

pub data Later (t : EventLoopThread) : EventLoopThread → Type 0 where
  now : Later t t
  then : {t' t'' : EventLoopThread} → Later t t' → Step t' t'' → Later t t''

abbrev pub Reach : EventLoopThread → Type 0
Reach t = Later create t

abbrev runs : ThreadAt → Bool
runs not_started = false
runs starting = false
runs published = true
runs looping = true
runs finished = false

-- The loop has been published exactly if the thread runs it, until the destructor calls `quit`.
abbrev fits : ThreadAt → Bool → Bool → Bool
fits not_started loop quit = false
fits starting loop quit = not loop && not quit
fits published loop quit = loop && not quit
fits looping loop quit = loop && not quit
fits finished loop quit = false

abbrev ok : OwnerAt → ThreadAt → Bool → Bool → Bool
ok before thread loop quit = not (is_started thread) && (not loop && not quit)
ok waiting thread loop quit = fits thread loop quit
ok has_loop thread loop quit = fits thread loop quit && loop
ok quitting thread loop quit = true
ok joining thread loop quit = true
ok joined thread loop quit = true

abbrev is_ok : EventLoopThread → Bool
is_ok t = ok t.owner t.thread t.loop t.quit

Step-ok : (t t' : EventLoopThread) → Step t t' → is_ok t ≡ true → is_ok t' ≡ true
unfolding start_loop wait publish enter_loop turn destroy wake join
Step-ok t t' (starts here e) v = ground arith
Step-ok t t' (waits here) v = ground arith
Step-ok t t' (publishes here) v = ground arith
Step-ok t t' (enters here) v = ground arith
Step-ok t t' (turns here) v = ground arith
Step-ok t t' (destroys here e) v = ground arith
Step-ok t t' (wakes here e) v = ground arith
Step-ok t t' (joins here) v = ground arith

Reach-ok : {t : EventLoopThread} → Reach t → is_ok t ≡ true
unfolding create
Reach-ok now = refl
Reach-ok (then {t' = t} {t'' = t'} r s) = Step-ok t t' s (Reach-ok r)

-- The thread has not been told to end, or has not noticed.
abbrev untold : ThreadAt → Bool → Bool
untold not_started quit = false
untold starting quit = false
untold published quit = true
untold looping quit = not quit
untold finished quit = false

abbrev is_joining : OwnerAt → Bool
is_joining before = false
is_joining waiting = false
is_joining has_loop = false
is_joining quitting = true
is_joining joining = true
is_joining joined = false

abbrev hangs : EventLoopThread → Bool
hangs t = is_joining t.owner && untold t.thread t.quit

Step-hangs : (t t' : EventLoopThread) → Step t t' → hangs t ≡ true → hangs t' ≡ true
unfolding wait publish enter_loop turn wake join
Step-hangs t t' (starts here e) h = ground arith
Step-hangs t t' (waits here) h = ground arith
Step-hangs t t' (publishes here) h = ground arith
Step-hangs t t' (enters here) h = ground arith
Step-hangs t t' (turns here) h = ground arith
Step-hangs t t' (destroys here e) h = ground arith
Step-hangs t t' (wakes here e) h = ground arith
Step-hangs t t' (joins here) h = ground arith

Later-hangs : {t t' : EventLoopThread} → Later t t' → hangs t ≡ true → hangs t' ≡ true
Later-hangs now h = h
Later-hangs (then {t' = u} {t'' = u'} l s) h = Step-hangs u u' s (Later-hangs l h)

hangs-joining : (t : EventLoopThread) → hangs t ≡ true → (t.owner ≡ quitting) ⊎ (t.owner ≡ joining)
hangs-joining t h = ground arith

-- What the destructor leads to from `t`, as the state `t'` after its `quit_ = true`.
abbrev pub Ends : EventLoopThread → EventLoopThread → Type 0
Ends t t' =
    (t.thread ≡ looping
      → Returns (wake t') (λ u. (join (turn u)).owner ≡ joined) × (wake (turn t') ≡ none))
    × (t.thread ≡ published
        → (t'' : EventLoopThread) → Later t' t''
        → (t''.owner ≡ quitting) ⊎ (t''.owner ≡ joining))

-- In every interleaving, when `startLoop` has returned, the thread is about to enter its loop or is
-- in it, so the loop returned is there. The destructor then gets past its null pointer and sets
-- `quit_`. If the thread is in its loop and stays there until the wakeup, it ends with the next round
-- and the join returns. If a round ends the loop before the wakeup, that uses a loop that is gone. If
-- the thread has not entered the loop yet, the entry undoes the `quit_`, and the join never returns.
pub loop_thread_lem :
    (t : EventLoopThread)
    → Reach t
    → t.owner ≡ has_loop
    → ((t.thread ≡ published) ⊎ (t.thread ≡ looping)) × Returns (destroy t) (Ends t)
unfolding destroy wake turn join
loop_thread_lem t r here =
    let v = Reach-ok r in
    let there : t.loop ≡ true = ground arith in
    (
      ground arith,
      rw there (
        λ in_loop. (ground arith, ground arith),
        λ early t'' l. hangs-joining t'' (Later-hangs l (ground arith)),
      ),
    )
