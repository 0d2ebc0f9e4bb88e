-- ===== src/TcpConnection/Draining.antt =====
-- `handleWrite` sends what waits, and then shuts the write side down if that was asked for; `shutdown`
-- asks for it (irono/net/TcpConnection.cc).
use irono.Base.{
  ℕ, ◌≤◌, ◌≡◌, true, false, ◌&&◌, [], ◌++◌, length, arith, refl, take, drop, take-append-drop,
  take-all, drop-all, ◌||◌, length-drop, append_assoc, Returns, Returns-bind, Bool-cases, inl, inr,
  ltb,
}
use irono.Buffer.{retrieve}
use irono.Buffer.Inv.{IsValid, content, length-content}
use irono.Buffer.Retrieve.{retrieve_lem}
use irono.Channel.{change_events}
use irono.TcpConnection.{
  Connection, is_disconnecting, is_writing, Write, written, shutdown_in_loop, shutdown, after_write,
  handle_write,
}
use irono.TcpConnection.Inv.{Inv, stream}

after_write-Inv :
    (c : Connection) (n : ℕ)
    → Inv c
    → is_writing c ≡ true
    → n ≤ length (content c.output)
    → Returns (after_write c n) (λ c'. Inv c' × (stream c' ≡ stream c) × (c'.state ≡ c.state))
unfolding after_write shutdown_in_loop change_events
after_write-Inv c n v on h =
    Returns-bind (retrieve c.output n) _ (λ b. IsValid b × (content b ≡ drop n (content c.output)))
      (λ c'. Inv c' × (stream c' ≡ stream c) × (c'.state ≡ c.state))
      (retrieve_lem c.output n v.output_valid h)
      (λ b r. ground (
        arith,
        r,
        length-content b r.0,
        length-drop n (content c.output),
        append_assoc c.sent (take n (content c.output)) (drop n (content c.output)),
        take-append-drop n (content c.output),
      ))

-- `handleWrite` loses no byte and reorders none: what `write` takes leaves the output buffer at the
-- front. It comes back whatever `write` returned, as long as that is no more than it was given.
pub handle_write-Inv :
    (c : Connection) (w : Write)
    → Inv c
    → written w ≤ length (content c.output)
    → Returns (handle_write c w) (λ c'. Inv c' × (stream c' ≡ stream c) × (c'.state ≡ c.state))
unfolding handle_write
handle_write-Inv c w v fits = elim (Bool-cases (is_writing c && ltb 0 (written w))) [
  | inl go ↦ rw go (after_write-Inv c (written w) v (ground arith) fits)
  | inr stop ↦ rw stop (v, refl, refl)
]

-- On a connection with the invariant that is writing: when `write` takes all that waits,
-- `handleWrite` comes back with all of it sent and nothing waiting, has switched writing off, and
-- the write side is shut down exactly if `shutdown` was called before or it was shut already.
pub handle_write_drained :
    (c : Connection) (w : Write)
    → Inv c
    → is_writing c ≡ true
    → written w ≡ length (content c.output)
    → Returns (handle_write c w) (λ c'.
      (content c'.output ≡ [])
      × (is_writing c' ≡ false)
      × (c'.sent ≡ c.sent ++ content c.output)
      × (c'.write_shut ≡ (is_disconnecting c.state || c.write_shut)))
unfolding handle_write after_write shutdown_in_loop change_events
handle_write_drained c w v on all = elim (Bool-cases (is_writing c && ltb 0 (written w))) [
  | inl go ↦ rw go (
      Returns-bind (retrieve c.output (written w)) _
        (λ b. IsValid b × (content b ≡ drop (written w) (content c.output)))
        (λ c'.
          (content c'.output ≡ [])
          × (is_writing c' ≡ false)
          × (c'.sent ≡ c.sent ++ content c.output)
          × (c'.write_shut ≡ (is_disconnecting c.state || c.write_shut)))
        (retrieve_lem c.output (written w) v.output_valid (omega arith))
        (λ b r. ground (
          arith,
          r,
          length-content b r.0,
          drop-all (written w) (content c.output),
          take-all (written w) (content c.output),
        )))
  | inr stop ↦ absurd (ground (arith, v.waits))
]

-- `shutdown` never cuts off what was taken on: it shuts the write side at once only if nothing waits
-- on an open connection, and otherwise leaves that to `handleWrite`.
pub shutdown-Inv : (c : Connection) → Inv c → Inv (shutdown c) × (stream (shutdown c) ≡ stream c)
unfolding shutdown shutdown_in_loop
shutdown-Inv c v = ground arith
