-- ===== src/TimerQueue.antt =====
-- The timers of irono/net/TimerQueue.h, TimerQueue.cc, Timer.h, Timer.cc and TimerId.h, in the loop's
-- thread. Times are microseconds since the epoch, from 0 on; a timer's address is a number, and the
-- times that the clock gives are arguments.
pub mod SortedSet
pub mod Inv
pub mod Add
pub mod Alarm
pub mod Cancel
pub mod Expire
pub mod Reset
pub mod Handle
mod Tests
use irono.Base.{
  ℕ, zero, suc, ◌+◌, ◌-◌, ◌*◌, ◌/◌, ◌%◌, ◌^◌, Bool, true, false, not, ◌&&◌, ◌||◌, Option, none,
  some, List, [], ◌∷◌, length, ltb, leb, ◌==◌, if◌then◌else◌, assert, ◌>>=◌, ◌>>◌, update,
}
use SortedSet.{Key, mem, insert, erase, before, from}

-- `UINTPTR_MAX`.
abbrev pub uintptr_max : ℕ
uintptr_max = 2 ^ 64 - 1

-- `delta` is the interval in microseconds, as `addTime` converts it; `repeat` is `interval > 0.0`.
pub record Timer : Type 0 where
  pub callback : ℕ
  pub expiration : ℕ
  pub delta : ℕ
  pub repeat : Bool
  pub sequence : ℕ

-- An entry of `timers` is a time and an address, one of the other two sets an address and a sequence
-- number. `num_created` is `Timer::s_numCreated_`. `armed` is the time that `timerfd_settime` was last
-- given, with the delay that it was set to.
pub record TimerQueue : Type 0 where
  pub timers : List Key
  pub calling_expired_timers : Bool
  pub active_timers : List Key
  pub canceling_timers : List Key
  pub heap : ℕ → Option Timer
  pub num_created : ℕ
  pub armed : Option (ℕ × ℕ)

pub record TimerId : Type 0 where
  pub timer : ℕ
  pub seq : ℕ

unfoldable pub create : TimerQueue
create = record {
  timers = [];
  calling_expired_timers = false;
  active_timers = [];
  canceling_timers = [];
  heap = λ _. none;
  num_created = 0;
  armed = none;
}

-- `restart`: a timer that does not repeat gets the time 0.
unfoldable pub restart : Timer → ℕ → Timer
restart t now =
    if t.repeat then record t { expiration = now + t.delta } else record t { expiration = 0 }

-- `howMuchTimeFromNow`, as seconds and nanoseconds, with at least 100 microseconds.
unfoldable pub how_much_time_from_now : ℕ → ℕ → ℕ × ℕ
how_much_time_from_now when now =
    let microseconds = if ltb (when - now) 100 then 100 else when - now in
    (microseconds / 1000000, microseconds % 1000000 * 1000)

-- What `::read` returns on the timerfd, `none` for -1. Anything but the eight bytes of a count is
-- `LOG_FATAL`.
unfoldable pub read_timerfd : Option ℕ → Option (Unit {0})
read_timerfd none = none
read_timerfd (some n) = assert (n == 8)

-- `settime` says whether `timerfd_settime` succeeds with so many seconds and nanoseconds; if not, this
-- is `LOG_FATAL`.
unfoldable pub reset_timerfd : (ℕ × ℕ → Bool) → TimerQueue → ℕ → ℕ → Option TimerQueue
reset_timerfd settime q expiration now = do
  let value = how_much_time_from_now expiration now
  assert (settime value)
  some (record q { armed = some (expiration, value.0 * 1000000000 + value.1) })

abbrev pub entry : Timer → ℕ → Key
entry t ptr = record { first = t.expiration; second = ptr }

abbrev pub active_entry : Timer → ℕ → Key
active_entry t ptr = record { first = ptr; second = t.sequence }

abbrev pub same_size : TimerQueue → Bool
same_size q = length q.timers == length q.active_timers

-- `when < timers_.begin()->first`, or no timer at all.
unfoldable pub is_earliest : ℕ → List Key → Bool
is_earliest when [] = true
is_earliest when (x ∷ xs) = ltb when x.first

-- `insert`, with the address of a timer whose object is `t`.
unfoldable pub insert_timer : TimerQueue → Timer → ℕ → Option (TimerQueue × Bool)
insert_timer q t ptr = do
  assert (same_size q)
  let earliest_changed = is_earliest t.expiration q.timers
  assert (not (mem (entry t ptr) q.timers))
  assert (not (mem (active_entry t ptr) q.active_timers))
  let q' = record q {
    timers = insert (entry t ptr) q.timers;
    active_timers = insert (active_entry t ptr) q.active_timers;
  }
  assert (same_size q')
  some (q', earliest_changed)

-- A dangling address is a fault.
abbrev pub deref : TimerQueue → ℕ → Option Timer
deref q ptr = q.heap ptr

-- `addTimer` in the loop's thread: `ptr` is where `new` puts the timer.
unfoldable pub new_timer : TimerQueue → ℕ → ℕ → ℕ → Bool → TimerQueue × Timer
new_timer q when delta callback repeat =
    let t : Timer = record {
      callback = callback;
      expiration = when;
      delta = delta;
      repeat = repeat;
      sequence = q.num_created + 1;
    } in
    (record q { num_created = q.num_created + 1 }, t)

unfoldable pub add_timer_in_loop : (ℕ × ℕ → Bool) → TimerQueue → ℕ → ℕ → Option TimerQueue
add_timer_in_loop settime q ptr now = do
  t ← deref q ptr
  (q', earliest_changed) ← insert_timer q t ptr
  if earliest_changed then reset_timerfd settime q' t.expiration now else some q'

unfoldable pub add_timer :
    (ℕ × ℕ → Bool) → TimerQueue → ℕ → ℕ → ℕ → ℕ → Bool → ℕ → Option (TimerQueue × TimerId)
unfolding new_timer add_timer_in_loop
add_timer settime q ptr callback when delta repeat now = do
  let (q', t) = new_timer q when delta callback repeat
  q'' ← add_timer_in_loop settime (record q' { heap = update q'.heap ptr (some t) }) ptr now
  some (q'', record { timer = ptr; seq = t.sequence })

abbrev pub free : TimerQueue → ℕ → TimerQueue
free q ptr = record q { heap = update q.heap ptr none }

-- The timer of the identifier is in the active set.
unfoldable pub cancel_active : TimerQueue → TimerId → Option TimerQueue
cancel_active q id = do
  t ← deref q id.timer
  assert (mem (entry t id.timer) q.timers)
  some (
      free
        (record q {
          timers = erase (entry t id.timer) q.timers;
          active_timers = erase (record { first = id.timer; second = id.seq }) q.active_timers;
        })
        id.timer)

unfoldable pub cancel_in_loop : TimerQueue → TimerId → Option TimerQueue
cancel_in_loop q id = do
  assert (same_size q)
  let timer : Key = record { first = id.timer; second = id.seq }
  let noted = record q { canceling_timers = insert timer q.canceling_timers }
  let missing = if q.calling_expired_timers then noted else q
  q' ← if mem timer q.active_timers then cancel_active q id else some missing
  assert (same_size q')
  some q'

-- The loop of `getExpired` over the expired entries.
unfoldable pub erase_active : TimerQueue → List Key → Option TimerQueue
erase_active q [] = some q
erase_active q (e ∷ expired) = do
  t ← deref q e.second
  assert (mem (active_entry t e.second) q.active_timers)
  erase_active (record q { active_timers = erase (active_entry t e.second) q.active_timers })
      expired

-- `assert(it == timers_.end() || now < it->first)`.
unfoldable pub starts_after : ℕ → List Key → Bool
starts_after now [] = true
starts_after now (x ∷ xs) = ltb now x.first

unfoldable pub get_expired : TimerQueue → ℕ → Option (TimerQueue × List Key)
get_expired q now = do
  assert (same_size q)
  let sentry : Key = record { first = now; second = uintptr_max }
  assert (starts_after now (from sentry q.timers))
  let expired = before sentry q.timers
  q' ← erase_active (record q { timers = from sentry q.timers }) expired
  assert (same_size q')
  some (q', expired)

-- One turn of the loop of `reset`: a timer that repeats and was not cancelled meanwhile starts again,
-- any other is deleted.
unfoldable pub reset_one : TimerQueue → Key → ℕ → Option TimerQueue
reset_one q e now = deref q e.second >>= λ t.
    let again = restart t now in
    if t.repeat && not (mem (active_entry t e.second) q.canceling_timers)
    then (insert_timer (record q { heap = update q.heap e.second (some again) }) again e.second
        >>= λ r. some r.0)
    else some (free q e.second)

unfoldable pub reset_all : TimerQueue → List Key → ℕ → Option TimerQueue
reset_all q [] now = some q
reset_all q (e ∷ expired) now = reset_one q e now >>= λ q'. reset_all q' expired now

-- The time of the first timer, or the invalid time 0.
unfoldable pub next_expiration : TimerQueue → Option ℕ
next_expiration q = elim q.timers [
  | [] ↦ some 0
  | x ∷ xs ↦ deref q x.second >>= λ t. some t.expiration
]

unfoldable pub reset : (ℕ × ℕ → Bool) → TimerQueue → List Key → ℕ → ℕ → Option TimerQueue
reset settime q expired now clock = do
  q' ← reset_all q expired now
  next_expire ← next_expiration q'
  if ltb 0 next_expire then reset_timerfd settime q' next_expire clock else some q'

-- The callbacks of the expired timers, one after the other; `run` is what a callback does to the queue.
unfoldable pub run_all :
    (ℕ → TimerQueue → Option TimerQueue) → TimerQueue → List Key → Option TimerQueue
run_all run q [] = some q
run_all run q (e ∷ expired) =
    deref q e.second >>= λ t. run t.callback q >>= λ q'. run_all run q' expired

-- `handleRead` at the time `now`; `n` is what `::read` returns, and `clock` is the time when the timerfd
-- is set again.
unfoldable pub handle_read :
    (ℕ × ℕ → Bool)
    → (ℕ → TimerQueue → Option TimerQueue)
    → TimerQueue
    → Option ℕ
    → ℕ
    → ℕ
    → Option TimerQueue
handle_read settime run q n now clock = do
  read_timerfd n
  (q', expired) ← get_expired q now
  q'' ← run_all run (record q' { calling_expired_timers = true; canceling_timers = [] }) expired
  reset settime (record q'' { calling_expired_timers = false }) expired now clock
