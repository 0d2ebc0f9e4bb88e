-- ===== src/Connector/Sockets.antt =====
-- No socket is lost, and no assert fails (irono/net/Connector.cc).
use irono.Base.{
  ℕ, suc, ◌+◌, ◌<◌, ◌≡◌, ◌≢◌, ◌⊎◌, refl, Bool, true, false, Option, none, some, ◌∷◌, length, arith,
  if◌then◌else◌, assert, ◌>>◌, Returns, inl,
}
use irono.Sockets.{returned, failed, or_die}
use irono.Connector.{
  NewSocket, is_made, is_disconnected, Connector, disconnected, connecting, Errno, Verdict, wait,
  try_again, give_up, verdict, act_on, do_connect, start_in_loop, start, restart, stop, timer_fires,
  retry, watch, remove_and_reset_channel, reset_channel, handle_write, handle_error,
}

-- The three situations of the channel object: there is none; it is watched, while connecting; or it is
-- out of the poller and its `resetChannel` is queued.
abbrev pub Slot : Connector → Type 0
Slot c =
    ((c.channel ≡ none) × (c.watched ≡ false) × (c.resets ≡ 0) × (c.state ≢ connecting))
    ⊎ (((c.channel ≢ none) × (c.watched ≡ true) × (c.resets ≡ 0) × (c.state ≡ connecting))
        ⊎ ((c.channel ≢ none) × (c.watched ≡ false) × (c.resets ≡ 1) × (c.state ≢ connecting)))

-- A socket in the hands of the connector.
abbrev pub in_flight : Connector → ℕ
in_flight c = if c.watched then 1 else 0

pub record Inv (c : Connector) : Type 0 where
  pub slot : Slot c
  pub balance : length c.opened ≡ length c.handed + length c.closed + in_flight c

pub data Call : Type 0 where
  starts restarts fires : NewSocket → Errno → Call
  stops resets errs : Call
  writes : ℕ → Bool → Call

unfoldable pub step : Connector → Call → Option Connector
step c (starts socket e) = start c socket e
step c (restarts socket e) = restart c socket e
step c (fires socket e) = timer_fires c socket e
step c stops = some (stop c)
step c resets = some (reset_channel c)
step c errs = handle_error c
step c (writes err self) = handle_write c err self

-- Attempts begin when no other is under way and the last channel has been reset, and get a socket; events come while the
-- channel is watched, and `resetChannel` runs if it was queued.
abbrev pub Allowed : Connector → Call → Type 0
Allowed c (starts socket e) =
    (c.state ≡ disconnected) × (c.channel ≡ none) × (is_made socket ≡ true)
Allowed c (restarts socket e) = (c.channel ≡ none) × (is_made socket ≡ true)
Allowed c (fires socket e) =
    (c.state ≡ disconnected) × (c.channel ≡ none) × (c.connect ≡ true → is_made socket ≡ true)
Allowed c stops = Unit {0}
Allowed c resets = 0 < c.resets
Allowed c errs = c.watched ≡ true
Allowed c (writes err self) = c.watched ≡ true

watched_at : Connector → ℕ → Connector
watched_at c fd = record c { state = connecting; channel = some fd; watched = true }

retry-Inv :
    (c : Connector) (fd : ℕ)
    → c.watched ≡ false
    → ((c.channel ≡ none) × (c.resets ≡ 0)) ⊎ ((c.channel ≢ none) × (c.resets ≡ 1))
    → length c.opened ≡ suc (length c.handed + length c.closed)
    → Inv (retry c fd)
unfolding retry
retry-Inv c fd w slot b = ground arith

act_on-Inv :
    (v : Verdict) (c : Connector) (fd : ℕ)
    → c.channel ≡ none
    → c.watched ≡ false
    → c.resets ≡ 0
    → c.state ≡ disconnected
    → length c.opened ≡ suc (length c.handed + length c.closed)
    → Returns (act_on v c fd) Inv
unfolding act_on watch
act_on-Inv wait c fd n w r s b = ground arith
act_on-Inv try_again c fd n w r s b = retry-Inv c fd w (inl (n, r)) b
act_on-Inv give_up c fd n w r s b = ground arith

-- An attempt that is not wanted any more changes nothing.
stays :
    (idle wanted : Bool) (attempt : Option Connector) (c : Connector)
    → idle ≡ true
    → wanted ≡ false
    → Inv c
    → Returns (assert idle >> (if wanted then attempt else some c)) Inv
stays idle wanted attempt c e f v = rw (e, f) v

start_in_loop-Inv :
    (c : Connector) (socket : NewSocket) (e : Errno)
    → Inv c
    → c.channel ≡ none
    → c.state ≡ disconnected
    → (c.connect ≡ true → is_made socket ≡ true)
    → Returns (start_in_loop c socket e) Inv
unfolding start_in_loop do_connect or_die
start_in_loop-Inv c (failed x) e v n s m =
    let up : is_disconnected c.state ≡ true = ground arith in
    let off : c.connect ≡ false = ground (arith, m) in
    stays (is_disconnected c.state) c.connect (do_connect c (failed x) e) c up off v
start_in_loop-Inv c (returned fd) e v n s m =
    ground (arith, v.slot, act_on-Inv (verdict e) (record c { opened = fd ∷ c.opened }) fd n)

handle_write-Inv :
    (c : Connector) (err : ℕ) (self : Bool)
    → Inv c
    → c.watched ≡ true
    → Returns (handle_write c err self) Inv
unfolding retry handle_write remove_and_reset_channel
handle_write-Inv c err self v w = ground arith

handle_error-Inv : (c : Connector) → Inv c → c.watched ≡ true → Returns (handle_error c) Inv
unfolding retry handle_error remove_and_reset_channel
handle_error-Inv c v w = ground arith

-- On a connector with the invariant every allowed call comes back, where `socket(2)` makes a socket for
-- each attempt: no assert fails and no missing
-- channel is used. Afterwards there is again a channel object exactly while a socket is connecting
-- or a `resetChannel` is queued, and there are as many sockets opened as handed over, closed, and
-- connecting.
pub step-Inv : (c : Connector) (call : Call) → Inv c → Allowed c call → Returns (step c call) Inv
unfolding step start restart timer_fires stop reset_channel
step-Inv c (starts socket e) v (down, free, made) =
    start_in_loop-Inv _ socket e (ground arith) free down (λ _. made)
step-Inv c (restarts socket e) v (free, made) =
    start_in_loop-Inv _ socket e (ground arith) free refl (λ _. made)
step-Inv c (fires socket e) v (down, free, made) =
    start_in_loop-Inv _ socket e (ground arith) free down made
step-Inv c stops v ok = ground arith
step-Inv c resets v ok = ground arith
step-Inv c errs v ok = handle_error-Inv c v ok
step-Inv c (writes err self) v ok = handle_write-Inv c err self v ok
