-- ===== src/Logger.antt =====
-- The front end of the log (irono/base/Logging.h and Logging.cc): a line from its header to its output.
pub mod Line
mod Tests
use irono.Base.{
  ℕ, Bool, true, false, Option, none, some, List, [], ◌∷◌, ◌++◌, if◌then◌else◌, ◌>>=◌, ◌>>◌, ℤ,
}
use irono.LogStream.{Item, text, integer, char, put}
use irono.AsyncLogging
use irono.AsyncLogging.{AsyncLogging}

pub data LogLevel : Type 0 where
  trace debug info error fatal : LogLevel

-- `LogLevelName`.
unfoldable pub log_level_name : LogLevel → List ℕ
log_level_name trace = b'T' ∷ b'R' ∷ b'A' ∷ b'C' ∷ b'E' ∷ b' ' ∷ []
log_level_name debug = b'D' ∷ b'E' ∷ b'B' ∷ b'U' ∷ b'G' ∷ b' ' ∷ []
log_level_name info = b'I' ∷ b'N' ∷ b'F' ∷ b'O' ∷ b' ' ∷ b' ' ∷ []
log_level_name error = b'E' ∷ b'R' ∷ b'R' ∷ b'O' ∷ b'R' ∷ b' ' ∷ []
log_level_name fatal = b'F' ∷ b'A' ∷ b'T' ∷ b'A' ∷ b'L' ∷ b' ' ∷ []

abbrev pub is_fatal : LogLevel → Bool
is_fatal trace = false
is_fatal debug = false
is_fatal info = false
is_fatal error = false
is_fatal fatal = true

-- `g_output`: the function `output`, or one that was given to `setOutput`.
pub data Output : Type 0 where
  to_file custom : Output

-- `async` is `AsyncLogger_`, null until `once_init` has run. `shown` are the messages that a function
-- given to `setOutput` got.
pub record Logging : Type 0 where
  pub output : Output
  pub async : Option AsyncLogging
  pub shown : List (List ℕ)

unfoldable pub create : Logging
create = record { output = to_file; async = none; shown = [] }

unfoldable pub set_output : Logging → Logging
set_output l = record l { output = custom }

-- `pthread_once` of `once_init`.
abbrev pub once : Option AsyncLogging → AsyncLogging
once none = AsyncLogging.create
once (some a) = a

-- A call of `g_output`.
abbrev pub deliver : Logging → Output → List ℕ → Logging
deliver l to_file msg = record l { async = some (AsyncLogging.append (once l.async) msg) }
deliver l custom msg = record l { shown = l.shown ++ (msg ∷ []) }

pub record Impl : Type 0 where
  pub stream : List ℕ
  pub level : LogLevel
  pub line : ℤ
  pub filename : List ℕ

-- Several `operator<<` in a row.
unfoldable pub put_all : List ℕ → List Item → Option (List ℕ)
put_all b [] = some b
put_all b (item ∷ items) = put b item >>= λ b'. put_all b' items

-- What the constructor writes. `time` is what `strftime` makes of the time of day, and `tid` the text
-- of the thread's number.
abbrev pub header : List ℕ → List ℕ → LogLevel → List Item
header time tid level = text time ∷ text (log_level_name level) ∷ text tid ∷ text (b' ' ∷ []) ∷ []

unfoldable pub begin_line : List ℕ → List ℕ → List ℕ → ℤ → LogLevel → Option Impl
begin_line time tid filename line level = put_all [] (header time tid level) >>= λ b.
    some (record { stream = b; level = level; line = line; filename = filename })

-- What the destructor adds.
abbrev pub trailer : List ℕ → ℤ → List Item
trailer filename line =
    text (b' ' ∷ b'-' ∷ b'-' ∷ b' ' ∷ [])
    ∷ text filename
    ∷ text (b':' ∷ [])
    ∷ integer line
    ∷ char b'\n'
    ∷ []

-- How a statement ends: the program goes on, or it aborts.
pub data Ending : Type 0 where
  goes_on : Logging → Ending
  aborts : Logging → Ending

-- `AsyncLogger_->output().flush()`, through a pointer that may be null.
abbrev pub flush_async : Option AsyncLogging → Option (Unit {0})
flush_async none = none
flush_async (some a) = some tt

-- The destructor. `none` is the use of a null pointer.
unfoldable pub end_line : Logging → Impl → Option Ending
end_line l impl = put_all impl.stream (trailer impl.filename impl.line) >>= λ b.
    let l' = deliver l l.output b in
    let flushed = flush_async l'.async >> some (aborts l') in
    if is_fatal impl.level then flushed else some (goes_on l')

-- A whole statement: the temporary object is made, `items` are put into its stream, and it is destroyed.
unfoldable pub log : Logging → List ℕ → List ℕ → List ℕ → ℤ → LogLevel → List Item → Option Ending
unfolding begin_line end_line
log l time tid filename line level items = begin_line time tid filename line level >>= λ impl.
    put_all impl.stream items >>= λ b. end_line l (record impl { stream = b })
