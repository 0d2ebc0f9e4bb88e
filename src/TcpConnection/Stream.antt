-- ===== src/TcpConnection/Stream.antt =====
-- A connection's whole life: any sequence of calls from its construction on
-- (irono/net/TcpConnection.cc).
use irono.Base.{
  ℕ, ◌≡◌, ◌≢◌, refl, sym, ap, ◌∙◌, Bool, true, some, List, [], ◌++◌, append-nil, Returns, subst,
}
use irono.Buffer
use irono.Buffer.Inv.{content}
use irono.TcpConnection.{Connection, connected, create}
use irono.TcpConnection.Inv.{Inv, stream, create-Inv}
use irono.TcpConnection.Step.{Call, step, Allowed, added, StepDone, step-StepDone}

-- `Run b taken c`: calls that lead to `c` and took on the bytes `taken`.
pub data Run (b : Bool) : List ℕ → Connection → Type 0 where
  start : Run b [] (create b)
  call :
      {taken : List ℕ} {c c' : Connection} (k : Call)
      → Run b taken c
      → Allowed c k
      → step c k ≡ some c'
      → Run b (taken ++ added c k) c'

StepDone-of_eq :
    (c c' : Connection) (k : Call) → Inv c → Allowed c k → step c k ≡ some c' → StepDone c k c'
StepDone-of_eq c c' k v ok e = subst (λ r. Returns r (StepDone c k)) e (step-StepDone c k v ok)

pub Run-Inv : {b : Bool} {taken : List ℕ} {c : Connection} → Run b taken c → Inv c
Run-Inv {b} start = create-Inv b
Run-Inv (call {c = c} {c' = c'} k r ok e) = (StepDone-of_eq c c' k (Run-Inv r) ok e).inv

Run-stream : {b : Bool} {taken : List ℕ} {c : Connection} → Run b taken c → stream c ≡ taken
unfolding create Buffer.create
Run-stream start = refl
Run-stream (call {taken = taken} {c = c} {c' = c'} k r ok e) =
    (StepDone-of_eq c c' k (Run-Inv r) ok e).grows ∙ ap (λ xs. xs ++ added c k) (Run-stream r)

-- After any sequence of allowed calls in the loop's thread, from the construction on, what the
-- socket was given followed by what waits in the output buffer is exactly what `send` took on:
-- nothing is lost, duplicated, changed or reordered.
pub sent_in_order :
    {b : Bool} {taken : List ℕ} {c : Connection}
    → Run b taken c
    → c.sent ++ content c.output ≡ taken
sent_in_order r = Run-stream r

-- After any sequence of allowed calls: when the write side has been shut down and the connection
-- still reads, it is no longer in the state `connected`, and the socket has been given everything
-- that was taken on.
pub shut_after_all :
    {b : Bool} {taken : List ℕ} {c : Connection}
    → Run b taken c
    → c.write_shut ≡ true
    → c.events.pollin ≡ true
    → (c.sent ≡ taken) × (c.state ≢ connected)
shut_after_all {taken = taken} {c = c} r shut reading =
    let v = Run-Inv r in
    (
      sym (append-nil c.sent) ∙ ap (◌++◌ c.sent) (sym (v.shut_empty shut reading)) ∙ Run-stream r,
      v.shut_state shut,
    )
