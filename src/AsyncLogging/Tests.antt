-- ===== src/AsyncLogging/Tests.antt =====
-- Two lines, one of them appended during the writing (irono/base/AsyncLogging.cc).
use irono.Base.{ℕ, ◌≡◌, List, [], ◌∷◌, ◌++◌}
use irono.AsyncLogging.{AsyncLogging, append, concat, create}
use irono.AsyncLogging.Exchange.{being_written}
use irono.AsyncLogging.Order.{start, appends, logged_in_order}

abbrev line : List ℕ
line = 104 ∷ 105 ∷ 10 ∷ []

abbrev one_line : AsyncLogging
one_line = append create line

logged_in_order_example :
    one_line.output
      ++ (concat (being_written one_line.writing) ++ (concat one_line.buffers ++ one_line.current))
    ≡ line
logged_in_order_example = logged_in_order (appends line start)
