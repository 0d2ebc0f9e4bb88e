-- ===== src/Echo/Idle.antt =====
-- The wheel as one counter for each connection (irono/example/echo/echo.cc).
use irono.Base.{
  ℕ, ◌+◌, ◌-◌, ◌<◌, ◌≡◌, refl, sym, ap, ◌∙◌, subst, Bool, true, false, Option, none, some, List, [],
  ◌∷◌, ◌++◌, length, arith, inl, inr, Option-cases, Returns, update, length-replicate,
  length-append, not, ◌&&◌, get_elem?, take,
}
use irono.Echo.{
  EchoServer, create, connection_up, connection_down, on_message, tick, insert_front,
  destroy_entries, is_held, mem,
}
use irono.Echo.Wheel.{
  age, is_held-age, age-replicate, age-insert, split_last, get_elem?-last, take-front, turned,
  falls_out, age-turn, falls_out-turn,
}
use irono.Echo.Counter.{
  Event, comes_up, comes_down, goes, receives, timer, apply, Allowed, Idle, unknown, expired, idle,
  Conn, refreshed, spec_tick, spec_step, Reach, here, next, spec,
}

-- What the server keeps about a connection.
abbrev pub state_of : Bool → Option ℕ → Idle
state_of false a = unknown
state_of true none = expired
state_of true (some k) = idle k

abbrev pub view : EchoServer → ℕ → Conn
view s c = record {
  state = state_of (s.has_context c) (age c s.buckets);
  alive = s.alive c;
  shut = s.shut c;
}

pub record Inv (n : ℕ) (s : EchoServer) : Type 0 where
  pub has_bucket : 0 < n
  pub size : length s.buckets ≡ n
  pub entries : (c : ℕ) → s.has_context c ≡ false → age c s.buckets ≡ none

-- The server goes on, and each connection as the counter says.
abbrev pub Tracks : ℕ → EchoServer → Event → EchoServer → Type 0
Tracks n s e s' = Inv n s' × ((c : ℕ) → view s' c ≡ spec_step n c e (view s c))

has_front :
    (n : ℕ) (s : EchoServer) → Inv n s → (b : List ℕ) × (bs : List (List ℕ)) × (s.buckets ≡ b ∷ bs)
has_front n s v = go s.buckets (omega (arith, v.has_bucket, v.size))
  where
    go : (xs : List (List ℕ)) → 0 < length xs → (b : List ℕ) × (bs : List (List ℕ)) × (xs ≡ b ∷ bs)
    go [] h = absurd (omega arith)
    go (x ∷ xs) h = (x, xs, refl)

up-Tracks :
    (n : ℕ) (s : EchoServer) (d : ℕ)
    → Inv n s
    → s.has_context d ≡ false
    → Returns (apply s (comes_up d)) (Tracks n s (comes_up d))
unfolding apply connection_up insert_front spec_step
up-Tracks n s d v new =
    let (b, bs, front) = has_front n s v in
    rw front (
      record {
        has_bucket = v.has_bucket;
        size = ground (arith, v.size);
        entries = λ c h. ground (arith, age-insert c d b bs, v.entries c);
      },
      λ c. ground (arith, age-insert c d b bs),
    )

message-Tracks :
    (n : ℕ) (s : EchoServer) (d : ℕ) (msg : List ℕ)
    → Inv n s
    → s.has_context d ≡ true
    → Returns (apply s (receives d msg)) (Tracks n s (receives d msg))
unfolding apply on_message insert_front spec_step refreshed
message-Tracks n s d msg v known = elim (Option-cases (age d s.buckets)) [
  | inl e ↦
      let gone : is_held d s.buckets ≡ false = rw (is_held-age d s.buckets, e) refl in
      rw (known, gone)
        (
          record { has_bucket = v.has_bucket; size = v.size; entries = v.entries },
          λ c. ground (arith, e, known),
        )
  | inr (k, e) ↦
      let held : is_held d s.buckets ≡ true = rw (is_held-age d s.buckets, e) refl in
      let (b, bs, front) = has_front n s v in
      rw (known, held, front)
        (
          record {
            has_bucket = v.has_bucket;
            size = ground (arith, v.size);
            entries = λ c h. ground (arith, age-insert c d b bs, v.entries c);
          },
          λ c. ground (arith, age-insert c d b bs, e, known, v.entries c),
        )
]

down-Tracks :
    (n : ℕ) (s : EchoServer) (d : ℕ)
    → Inv n s
    → s.has_context d ≡ true
    → Returns (connection_down s d) (Tracks n s (comes_down d))
unfolding connection_down spec_step
down-Tracks n s d v known = rw known (v, λ c. refl)

goes-Tracks :
    (n : ℕ) (s : EchoServer) (d : ℕ)
    → Inv n s
    → Tracks n s (goes d) (record s { alive = update s.alive d false })
unfolding spec_step
goes-Tracks n s d v =
    (record { has_bucket = v.has_bucket; size = v.size; entries = v.entries }, λ c. ground arith)

tick_lem :
    (n : ℕ) (s : EchoServer) (front : List (List ℕ)) (b : List ℕ)
    → Inv n s
    → s.buckets ≡ front ++ (b ∷ [])
    → length front + 1 ≡ n
    → Returns (tick s) (Tracks n s timer)
unfolding tick destroy_entries spec_step spec_tick turned falls_out
tick_lem n s front b v e len =
    let at_end : length s.buckets - 1 ≡ length front = omega (arith, v.size) in
    let popped : get_elem? s.buckets (length s.buckets - 1) ≡ some b =
      rw (at_end, e) (get_elem?-last front b) in
    let left : take (length s.buckets - 1) s.buckets ≡ front =
      rw (at_end, e) (take-front front b) in
    let ages : (c : ℕ) → age c ([] ∷ front) ≡ turned (age c s.buckets) n =
      λ c. rw (e, sym len) (age-turn c front b) in
    let outs : (c : ℕ) → (mem c b && not (is_held c front)) ≡ falls_out (age c s.buckets) n =
      λ c. rw (e, sym len) (falls_out-turn c front b) in
    rw (popped, left)
      (
        record {
          has_bucket = v.has_bucket;
          size = omega arith;
          entries = λ c h. ground (arith, ages c, v.entries c);
        },
        λ c. elim (Option-cases (age c s.buckets)) [
          | inl a ↦ ground (arith, ages c, outs c, a)
          | inr (k, a) ↦ ground (arith, ages c, outs c, a, v.entries c)
        ],
      )

tick-Tracks : (n : ℕ) (s : EchoServer) → Inv n s → Returns (tick s) (Tracks n s timer)
tick-Tracks n s v =
    let (front, b, e) = split_last s.buckets (omega (arith, v.has_bucket, v.size)) in
    let len : length front + 1 ≡ n =
      omega (arith, length-append front (b ∷ []), ap length e, v.size) in
    tick_lem n s front b v e len

pub apply-Tracks :
    (n : ℕ) (s : EchoServer) (e : Event)
    → Inv n s
    → Allowed s e
    → Returns (apply s e) (Tracks n s e)
unfolding apply
apply-Tracks n s (comes_up c) v h = up-Tracks n s c v h
apply-Tracks n s (comes_down c) v h = down-Tracks n s c v h
apply-Tracks n s (goes c) v h = goes-Tracks n s c v
apply-Tracks n s (receives c msg) v h = message-Tracks n s c msg v h
apply-Tracks n s timer v h = tick-Tracks n s v

create-Inv : (n : ℕ) → 0 < n → Inv n (create n)
unfolding create
create-Inv n h = record {
  has_bucket = h;
  size = length-replicate n [];
  entries = λ c e. age-replicate c n;
}

pub Reach-Tracks :
    {n : ℕ} {es : List Event} {s : EchoServer}
    → Reach n es s
    → 0 < n
    → Inv n s × ((c : ℕ) → view s c ≡ spec n c es)
unfolding spec create
Reach-Tracks {n = n} here h = (create-Inv n h, λ c. refl)
Reach-Tracks {n = n} (next {es = es} {s = s} {s' = s'} e r a q) h =
    let (v, same) = Reach-Tracks r h in
    let (v', step) = subst (λ m. Returns m (Tracks n s e)) q (apply-Tracks n s e v a) in
    (v', λ c. step c ∙ ap (spec_step n c e) (same c))

-- With at least one bucket, after whatever events in which each connection comes up once, before
-- its other events: the state of each connection in the server is that of a counter of its own,
-- which a message puts to 0 and a tick raises, until the tick that takes it to the number of
-- buckets destroys the entry and shuts a connection that is still there. And no further event fails
-- an assert.
pub counts_idle_ticks :
    (n : ℕ) (es : List Event) (s : EchoServer)
    → 0 < n
    → Reach n es s
    → ((c : ℕ) → view s c ≡ spec n c es)
      × ((e : Event) → Allowed s e → Returns (apply s e) (Tracks n s e))
counts_idle_ticks n es s h r =
    let (v, same) = Reach-Tracks r h in (same, λ e a. apply-Tracks n s e v a)
