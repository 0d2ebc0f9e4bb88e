-- ===== src/Echo/Tests.antt =====
-- A wheel with two buckets and one connection that falls silent (irono/example/echo/echo.cc).
use irono.Base.{ℕ, ◌≡◌, refl, true, false, List, [], ◌∷◌, leb, Returns, arith, update}
use irono.Echo.{EchoServer, create, connection_up, insert_front, tick, destroy_entries}
use irono.Echo.Counter.{Event, comes_up, timer, apply, Allowed, Reach, here, next, spec}
use irono.Echo.Idle.{view, Tracks, counts_idle_ticks}
use irono.Echo.Timeout.{ticks, shut_when_idle}

abbrev quiet : List Event
quiet = timer ∷ timer ∷ []

abbrev at_first : EchoServer
at_first = record {
  buckets = (7 ∷ []) ∷ [] ∷ [];
  has_context = update (λ c. false) 7 true;
  alive = update (λ c. false) 7 true;
  shut = λ c. false;
  sent = [];
}

abbrev one_later : EchoServer
one_later = record at_first { buckets = [] ∷ (7 ∷ []) ∷ [] }

abbrev two_later : EchoServer
two_later = record at_first {
  buckets = [] ∷ [] ∷ [];
  shut = destroy_entries one_later (7 ∷ []) ([] ∷ []);
}

up : Reach 2 (comes_up 7 ∷ []) at_first
unfolding apply connection_up insert_front create
up = next (comes_up 7) here refl refl

silent : Reach 2 (timer ∷ timer ∷ comes_up 7 ∷ []) two_later
unfolding apply tick destroy_entries
silent = next timer (next {s' = one_later} timer up tt refl) tt refl

counts_idle_ticks_example :
    ((c : ℕ) → view two_later c ≡ spec 2 c (timer ∷ timer ∷ comes_up 7 ∷ []))
    × ((e : Event) → Allowed two_later e → Returns (apply two_later e) (Tracks 2 two_later e))
counts_idle_ticks_example =
    counts_idle_ticks 2 (timer ∷ timer ∷ comes_up 7 ∷ []) two_later (omega arith) silent

shut_when_idle_example : two_later.shut 7 ≡ leb 2 (ticks quiet)
shut_when_idle_example =
    shut_when_idle 2 [] quiet at_first two_later 7 (comes_up 7) (omega arith) up refl refl refl
      (tt, (tt, tt)) silent
