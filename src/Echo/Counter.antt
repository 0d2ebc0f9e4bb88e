-- ===== src/Echo/Counter.antt =====
-- The events of the server, and what they do to a connection by itself (irono/example/echo/echo.cc).
use irono.Base.{
  ℕ, ◌+◌, ◌≡◌, Bool, true, false, ◌||◌, Option, some, List, [], ◌∷◌, ltb, ◌==◌, if◌then◌else◌,
  update,
}
use irono.Echo.{EchoServer, create, connection_up, connection_down, on_message, tick}

-- What happens to the server. `goes` is the end of a connection's object.
pub data Event : Type 0 where
  comes_up comes_down goes : ℕ → Event
  receives : ℕ → List ℕ → Event
  timer : Event

unfoldable pub apply : EchoServer → Event → Option EchoServer
apply s (comes_up c) = connection_up s c
apply s (comes_down c) = connection_down s c
apply s (goes c) = some (record s { alive = update s.alive c false })
apply s (receives c msg) = on_message s c msg
apply s timer = tick s

-- A connection comes up once, before anything else happens to it.
abbrev pub Allowed : EchoServer → Event → Type 0
Allowed s (comes_up c) = s.has_context c ≡ false
Allowed s (comes_down c) = s.has_context c ≡ true
Allowed s (goes c) = s.has_context c ≡ true
Allowed s (receives c msg) = s.has_context c ≡ true
Allowed s timer = Unit {0}

-- A connection by itself: it is idle for so many ticks, or has no entry any more.
pub data Idle : Type 0 where
  unknown expired : Idle
  idle : ℕ → Idle

pub record Conn : Type 0 where
  pub state : Idle
  pub alive : Bool
  pub shut : Bool

abbrev pub spec_start : Conn
spec_start = record { state = unknown; alive = false; shut = false }

unfoldable pub refreshed : Idle → Idle
refreshed unknown = unknown
refreshed expired = expired
refreshed (idle k) = idle 0

unfoldable pub spec_tick : ℕ → Conn → Conn
spec_tick n c = elim c.state [
  | unknown ↦ c
  | expired ↦ c
  | idle k ↦
      if ltb (k + 1) n
      then record c { state = idle (k + 1) }
      else record c { state = expired; shut = c.shut || c.alive }
]

unfoldable pub spec_step : ℕ → ℕ → Event → Conn → Conn
spec_step n c (comes_up d) s = if c == d then record s { state = idle 0; alive = true } else s
spec_step n c (comes_down d) s = s
spec_step n c (goes d) s = if c == d then record s { alive = false } else s
spec_step n c (receives d msg) s = if c == d then record s { state = refreshed s.state } else s
spec_step n c timer s = spec_tick n s

-- What has happened so far, the last first.
pub data Reach (n : ℕ) : List Event → EchoServer → Type 0 where
  here : Reach n [] (create n)
  next :
      {es : List Event} {s s' : EchoServer} (e : Event)
      → Reach n es s
      → Allowed s e
      → apply s e ≡ some s'
      → Reach n (e ∷ es) s'

-- The counter after all that has happened.
unfoldable pub spec : ℕ → ℕ → List Event → Conn
spec n c [] = spec_start
spec n c (e ∷ es) = spec_step n c e (spec n c es)
