-- ===== src/Echo/Timeout.antt =====
-- When an idle connection is shut (irono/example/echo/echo.cc).
use irono.Base.{
  ℕ, ◌+◌, ◌<◌, ◌≡◌, ◌≢◌, refl, ap, ◌∙◌, Bool, true, false, not, ◌&&◌, List, [], ◌∷◌, ◌++◌, ltb, leb,
  if◌then◌else◌, arith,
}
use irono.Echo.{EchoServer}
use irono.Echo.Counter.{
  Event, comes_up, comes_down, goes, receives, timer, Conn, Idle, unknown, expired, idle, refreshed,
  spec_step, spec_tick, spec, Allowed, Reach, next,
}
use irono.Echo.Idle.{view, Reach-Tracks}

-- The connection comes up, or sends something.
abbrev pub IsActivity : ℕ → Event → Type 0
IsActivity c (comes_up d) = c ≡ d
IsActivity c (comes_down d) = ⊥
IsActivity c (goes d) = ⊥
IsActivity c (receives d msg) = c ≡ d
IsActivity c timer = ⊥

-- Other connections, and the passing of time.
abbrev pub IsQuiet : ℕ → Event → Type 0
IsQuiet c (comes_up d) = c ≢ d
IsQuiet c (comes_down d) = Unit {0}
IsQuiet c (goes d) = c ≢ d
IsQuiet c (receives d msg) = c ≢ d
IsQuiet c timer = Unit {0}

abbrev pub AllQuiet : ℕ → List Event → Type 0
AllQuiet c [] = Unit {0}
AllQuiet c (e ∷ es) = IsQuiet c e × AllQuiet c es

abbrev one_tick : Event → ℕ
one_tick (comes_up d) = 0
one_tick (comes_down d) = 0
one_tick (goes d) = 0
one_tick (receives d msg) = 0
one_tick timer = 1

abbrev pub ticks : List Event → ℕ
ticks [] = 0
ticks (e ∷ es) = one_tick e + ticks es

-- A connection that is still there, so many ticks after its last message.
waited : ℕ → ℕ → Conn
waited n k =
    if ltb k n
    then record { state = idle k; alive = true; shut = false }
    else record { state = expired; alive = true; shut = true }

wait_step :
    (n k c : ℕ) (e : Event) → IsQuiet c e → spec_step n c e (waited n k) ≡ waited n (one_tick e + k)
unfolding spec_step spec_tick waited refreshed
wait_step n k c (comes_up d) q = ground arith
wait_step n k c (comes_down d) q = ground arith
wait_step n k c (goes d) q = ground arith
wait_step n k c (receives d msg) q = ground arith
wait_step n k c timer q = ground arith

waits :
    (n c : ℕ) (quiet es : List Event)
    → AllQuiet c quiet
    → spec n c es ≡ waited n 0
    → spec n c (quiet ++ es) ≡ waited n (ticks quiet)
unfolding spec
waits n c [] es q h = h
waits n c (e ∷ quiet) es (q, qs) h =
    ap (spec_step n c e) (waits n c quiet es qs h) ∙ wait_step n (ticks quiet) c e q

abbrev is_expired : Idle → Bool
is_expired unknown = false
is_expired expired = true
is_expired (idle k) = false

-- There, and not shut, but with no entry: a connection that the wheel forgot.
abbrev lost : Conn → Bool
lost s = is_expired s.state && (s.alive && not s.shut)

step-kept : (n c : ℕ) (e : Event) (s : Conn) → lost s ≡ false → lost (spec_step n c e s) ≡ false
unfolding spec_step spec_tick refreshed
step-kept n c (comes_up d) s h = ground arith
step-kept n c (comes_down d) s h = h
step-kept n c (goes d) s h = ground arith
step-kept n c (receives d msg) s h = ground arith
step-kept n c timer s h = ground arith

kept : (n c : ℕ) (es : List Event) → lost (spec n c es) ≡ false
unfolding spec
kept n c [] = refl
kept n c (e ∷ es) = step-kept n c e (spec n c es) (kept n c es)

after_activity :
    (n c : ℕ) (e : Event) (es : List Event) (s s' : EchoServer)
    → 0 < n
    → Allowed s e
    → IsActivity c e
    → view s c ≡ spec n c es
    → view s' c ≡ spec_step n c e (spec n c es)
    → s'.alive c ≡ true
    → s'.shut c ≡ false
    → spec_step n c e (spec n c es) ≡ waited n 0
unfolding spec_step refreshed waited
after_activity n c (comes_up d) es s s' h a act was now alive shut =
    ground (arith, ap (λ x. x.shut) now)
after_activity n c (comes_down d) es s s' h a act was now alive shut = absurd act
after_activity n c (goes d) es s s' h a act was now alive shut = absurd act
after_activity n c (receives d msg) es s s' h a act was now alive shut =
    ground (arith, ap (λ x. x.shut) now, ap (λ x. x.alive) now, ap (λ x. x.state) was, kept n c es)
after_activity n c timer es s s' h a act was now alive shut = absurd act

-- With at least one bucket: when a connection that is there and was not shut comes up or sends
-- something, and after that there are only ticks, events of others and its own going down, it has
-- been shut exactly if there were as many ticks as there are buckets.
pub shut_when_idle :
    (n : ℕ) (es quiet : List Event) (s s' : EchoServer) (c : ℕ) (e : Event)
    → 0 < n
    → Reach n (e ∷ es) s
    → IsActivity c e
    → s.alive c ≡ true
    → s.shut c ≡ false
    → AllQuiet c quiet
    → Reach n (quiet ++ (e ∷ es)) s'
    → s'.shut c ≡ leb n (ticks quiet)
unfolding waited spec
shut_when_idle n es quiet s' s'' c e h (next {s = s} f r a q) act alive shut still r'' =
    let was = (Reach-Tracks r h).1 c in
    let now = (Reach-Tracks (next f r a q) h).1 c in
    let start = after_activity n c e es s s' h a act was now alive shut in
    let end = (Reach-Tracks r'' h).1 c ∙ waits n c quiet (e ∷ es) still start in ground (arith, end)
