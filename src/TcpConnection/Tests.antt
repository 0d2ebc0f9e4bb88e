-- ===== src/TcpConnection/Tests.antt =====
-- A connection that is established, sends three bytes, is shut down, and drains
-- (irono/net/TcpConnection.cc).
use irono.Base.{ℕ, ◌≡◌, ◌≢◌, refl, false, Option, none, some, List, [], ◌∷◌, ◌++◌, arith, Returns}
use irono.Buffer
use irono.Buffer.{append, ensure_writable_bytes, has_written, retrieve}
use irono.Buffer.Inv.{content}
use irono.Channel.{change_events}
use irono.TcpConnection.{
  Connection, connected, create, wrote, connect_established, send, send_in_loop, write_direct,
  keep_rest, shutdown, shutdown_in_loop, handle_write, after_write,
}
use irono.TcpConnection.Inv.{Inv}
use irono.TcpConnection.Step.{establish, sends, shuts, writes, step, StepDone, step-StepDone}
use irono.TcpConnection.Stream.{Run, start, call, Run-Inv, sent_in_order, shut_after_all}

abbrev result : Option Connection → Connection
result none = create false
result (some c) = c

abbrev message : List ℕ
message = 1 ∷ 2 ∷ 3 ∷ []

abbrev up : Connection
up = result (connect_established (create false))

abbrev half : Connection
half = result (send up message (wrote 2))

abbrev asked : Connection
asked = shutdown half

abbrev drained : Connection
drained = result (handle_write asked (wrote 1))

run_up : Run false [] up
unfolding connect_established create step
run_up = call establish start refl refl

run_half : Run false message half
unfolding connect_established create step send send_in_loop write_direct keep_rest append
    ensure_writable_bytes has_written change_events Buffer.create
run_half = call (sends message (wrote 2)) run_up (omega arith) refl

run_asked : Run false message asked
unfolding connect_established create step send send_in_loop write_direct keep_rest append
    ensure_writable_bytes has_written change_events Buffer.create
run_asked = call shuts run_half tt refl

run_drained : Run false message drained
unfolding connect_established create step send send_in_loop write_direct keep_rest append
    ensure_writable_bytes has_written change_events Buffer.create shutdown shutdown_in_loop
    handle_write after_write retrieve
run_drained = call (writes (wrote 1)) run_asked (omega arith) refl

sent_in_order_example : drained.sent ++ content drained.output ≡ message
sent_in_order_example = sent_in_order run_drained

shut_after_all_example : (drained.sent ≡ message) × (drained.state ≢ connected)
unfolding connect_established create step send send_in_loop write_direct keep_rest append
    ensure_writable_bytes has_written change_events Buffer.create shutdown shutdown_in_loop
    handle_write after_write retrieve
shut_after_all_example = shut_after_all run_drained refl refl

up-Inv : Inv up
up-Inv = Run-Inv run_up

step-StepDone_example :
    Returns (step up (sends message (wrote 2))) (StepDone up (sends message (wrote 2)))
unfolding connect_established create change_events Buffer.create
step-StepDone_example = step-StepDone up (sends message (wrote 2)) up-Inv (omega arith)
