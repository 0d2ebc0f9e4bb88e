-- ===== src/TcpConnection/Step.antt =====
-- The calls that a connection gets in its loop's thread, from the loop, the server and the user
-- (irono/net/TcpConnection.cc).
use irono.Base.{
  ℕ, ◌+◌, ◌<◌, ◌≤◌, ◌≡◌, true, ◌||◌, Option, some, List, [], ◌∷◌, ◌++◌, length, arith, sym, ◌∙◌,
  append-nil, Returns, Returns-mono, Returns-bind,
}
use irono.Buffer.{Read, got, failed, read_fd, writable_bytes, extrabuf_size}
use irono.Buffer.Inv.{IsValid, content, max_size}
use irono.Buffer.ReadFd.{read_fd_lem}
use irono.Channel.{change_events}
use irono.TcpConnection.{
  Connection, State, is_connected, is_disconnecting, is_connecting, Write, written, send, shutdown,
  connect_established, connect_destroyed, handle_read, handle_write, handle_close, handle_error,
}
use irono.TcpConnection.Inv.{Inv, stream}
use irono.TcpConnection.Sending.{Fits, Sends, taken_on, send-Sends}
use irono.TcpConnection.Draining.{handle_write-Inv, shutdown-Inv}

pub data Call : Type 0 where
  establish destroy : Call
  sends : List ℕ → Write → Call
  shuts : Call
  reads : Read → Call
  writes : Write → Call
  closes errs : Call

unfoldable pub step : Connection → Call → Option Connection
step c establish = connect_established c
step c destroy = connect_destroyed c
step c (sends message w) = send c message w
step c shuts = some (shutdown c)
step c (reads r) = handle_read c r
step c (writes w) = handle_write c w
step c closes = handle_close c
step c errs = some (handle_error c)

-- The asserts on the state that a close relies on.
abbrev pub IsUp : State → Type 0
IsUp s = (is_connected s || is_disconnecting s) ≡ true

-- What the callers and the kernel keep to: connections are established once and closed while they
-- are up, a `write` or `readv` moves no more than it was given, and buffers stay below 2^63 bytes.
abbrev pub Allowed : Connection → Call → Type 0
Allowed c establish = is_connecting c.state ≡ true
Allowed c destroy = IsUp c.state
Allowed c (sends message w) = (c.output.writer_index + length message < max_size) × Fits w message
Allowed c shuts = Unit {0}
Allowed c (reads (failed errno)) = Unit {0}
Allowed c (reads (got [])) = IsUp c.state
Allowed c (reads (got (x ∷ bytes))) =
    (length c.input.buffer + extrabuf_size < max_size)
    × (length (x ∷ bytes) ≤ writable_bytes c.input + extrabuf_size)
Allowed c (writes w) = written w ≤ length (content c.output)
Allowed c closes = IsUp c.state
Allowed c errs = Unit {0}

-- The bytes that a call adds to what the connection has to send.
abbrev pub added : Connection → Call → List ℕ
added c (sends message w) = taken_on c message
added c _ = []

-- The invariant holds again, and the outgoing stream has grown by what the call added.
pub record StepDone (c : Connection) (call : Call) (c' : Connection) : Type 0 where
  pub inv : Inv c'
  pub grows : stream c' ≡ stream c ++ added c call

close-StepDone :
    (c : Connection)
    → Inv c
    → IsUp c.state
    → Returns (handle_close c) (λ c'. Inv c' × (stream c' ≡ stream c))
unfolding handle_close change_events
close-StepDone c v up = ground arith

read-StepDone :
    (c : Connection) (r : Read)
    → Inv c
    → Allowed c (reads r)
    → Returns (handle_read c r) (λ c'. Inv c' × (stream c' ≡ stream c))
unfolding handle_read handle_error
read-StepDone c (failed errno) v ok = ground arith
read-StepDone c (got []) v ok = close-StepDone c v ok
read-StepDone c (got (x ∷ bytes)) v ok =
    Returns-bind (read_fd c.input (got (x ∷ bytes))) _
      (λ b. IsValid b × (content b ≡ content c.input ++ (x ∷ bytes)))
      (λ c'. Inv c' × (stream c' ≡ stream c))
      (read_fd_lem c.input (x ∷ bytes) v.input_valid ok.0 ok.1) (λ b h. ground (arith, h))

-- On a connection with the invariant every allowed call comes back: no assert fails. The invariant
-- holds again, and the outgoing stream, what was sent and what waits, has grown by exactly the
-- message that the call took on.
pub step-StepDone :
    (c : Connection) (call : Call)
    → Inv c
    → Allowed c call
    → Returns (step c call) (StepDone c call)
unfolding step connect_established connect_destroyed handle_error change_events
step-StepDone c establish v ok = ground (arith, append-nil (stream c))
step-StepDone c destroy v ok = ground (arith, append-nil (stream c))
step-StepDone c (sends message w) v ok =
    Returns-mono (send c message w) (Sends c (taken_on c message)) (StepDone c (sends message w))
      (send-Sends c message w v ok.0 ok.1) (λ c' s. record { inv = s.inv; grows = s.all })
step-StepDone c shuts v ok = ground (arith, append-nil (stream c), shutdown-Inv c v)
step-StepDone c (reads r) v ok =
    Returns-mono (handle_read c r) _ (StepDone c (reads r)) (read-StepDone c r v ok)
      (λ c' s. record { inv = s.0; grows = s.1 ∙ sym (append-nil (stream c)) })
step-StepDone c (writes w) v ok =
    Returns-mono (handle_write c w) _ (StepDone c (writes w)) (handle_write-Inv c w v ok)
      (λ c' s. record { inv = s.0; grows = s.1 ∙ sym (append-nil (stream c)) })
step-StepDone c closes v ok =
    Returns-mono (handle_close c) _ (StepDone c closes) (close-StepDone c v ok)
      (λ c' s. record { inv = s.0; grows = s.1 ∙ sym (append-nil (stream c)) })
step-StepDone c errs v ok = ground (arith, append-nil (stream c))
