-- ===== src/Logger/Tests.antt =====
-- A fatal line, with the log and without it (irono/base/Logging.cc).
use irono.Base.{ℕ, ◌≡◌, refl, ◌<◌, ◌++◌, length, pos, none, List, [], ◌∷◌, arith}
use irono.LogStream.{
  Item, text, append, put, small_buffer, convert, convert_loop, quot10, last_digit, format_integer,
}
use irono.Logger.{
  create, set_output, deliver, header, trailer, fatal, log, put_all, begin_line, end_line,
  log_level_name,
}
use irono.Logger.Line.{Parts, Ends, log_lem}

abbrev time : List ℕ
time = b'9' ∷ b' ' ∷ []

abbrev tid : List ℕ
tid = b'7' ∷ []

abbrev file : List ℕ
file = b'a' ∷ []

abbrev items : List Item
items = text (b'x' ∷ []) ∷ []

log_lem_example :
    (msg : List ℕ) × Parts [] (header time tid fatal ++ (items ++ trailer file (pos 12))) msg
    × (length msg < small_buffer)
    × Ends fatal (deliver create create.output msg) (log create time tid file (pos 12) fatal items)
log_lem_example =
    log_lem create time tid file (pos 12) fatal items (omega arith) (omega arith) (omega arith)
      (omega arith) (omega arith)

no_log : log (set_output create) time tid file (pos 12) fatal items ≡ none
unfolding log put_all begin_line end_line log_level_name set_output create append put convert
    convert_loop quot10 last_digit format_integer
no_log = refl
