-- ===== src/Connector/Backoff.antt =====
-- The delays between attempts (irono/net/Connector.cc).
use irono.Base.{ℕ, suc, ◌*◌, ◌^◌, ◌≡◌, ap, ◌∙◌, true, List, [], ◌∷◌, min, arith}
use native.Mathlib.Nat.{pow-suc}
use irono.Connector.{Connector, retry, max_retry_delay_ms}

-- Attempts that fail one after the other, on the sockets of the list.
pub failures : Connector → List ℕ → Connector
failures c [] = c
failures c (fd ∷ fds) = failures (retry c fd) fds

abbrev pub count : List ℕ → ℕ
count [] = 0
count (x ∷ xs) = suc (count xs)

-- From a connector that means to connect and whose next delay is `d`, or 30 seconds if that is
-- less: after n failures in a row the next delay is `d * 2 ^ n`, or 30 seconds if that is less, and
-- it still means to connect.
pub failures_lem :
    (c : Connector) (fds : List ℕ) (d : ℕ)
    → c.connect ≡ true
    → c.retry_delay_ms ≡ min d max_retry_delay_ms
    → ((failures c fds).retry_delay_ms ≡ min (d * 2 ^ count fds) max_retry_delay_ms)
      × ((failures c fds).connect ≡ true)
unfolding failures retry
failures_lem c [] d up e = (omega arith, up)
failures_lem c (fd ∷ fds) d up e =
    let (delay, on) = failures_lem (retry c fd) fds (d * 2) (ground arith) (ground arith) in
    let e : d * 2 * 2 ^ count fds ≡ d * 2 ^ suc (count fds) =
      grind (arith, pow-suc 2 (count fds)) in
    (delay ∙ ap (λ n. min n max_retry_delay_ms) e, on)
