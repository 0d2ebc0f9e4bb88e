-- ===== src/Connector/Tests.antt =====
-- Attempts of a connector (irono/net/Connector.cc).
use irono.Base.{◌*◌, ◌^◌, ◌≡◌, refl, true, [], ◌∷◌, min, arith, Returns}
use irono.Sockets.{returned}
use irono.Connector.{Connector, create, econnrefused, max_retry_delay_ms}
use irono.Connector.Backoff.{failures, failures_lem}
use irono.Connector.Sockets.{Inv, starts, step, step-Inv}

create-Inv : Inv create
unfolding create
create-Inv = ground arith

step-Inv_example : Returns (step create (starts (returned 5) econnrefused)) Inv
unfolding create
step-Inv_example = step-Inv create (starts (returned 5) econnrefused) create-Inv (refl, refl, refl)

abbrev trying : Connector
trying = record create { connect = true }

failures_lem_example :
    ((failures trying (5 ∷ 6 ∷ 7 ∷ [])).retry_delay_ms ≡ min (500 * 2 ^ 3) max_retry_delay_ms)
    × ((failures trying (5 ∷ 6 ∷ 7 ∷ [])).connect ≡ true)
unfolding create
failures_lem_example = failures_lem trying (5 ∷ 6 ∷ 7 ∷ []) 500 refl refl
