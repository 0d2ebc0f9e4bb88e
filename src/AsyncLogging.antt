-- ===== src/AsyncLogging.antt =====
-- The asynchronous log of irono/base/AsyncLogging.h and AsyncLogging.cc, with the `FixedBuffer` of
-- irono/base/LogStream.h: threads append lines under a lock, and one thread writes the buffers out.
pub mod Exchange
pub mod Order
mod Tests
use irono.Base.{
  ℕ, ◌+◌, ◌-◌, ◌*◌, Bool, true, false, not, ◌&&◌, Option, none, some, List, [], ◌∷◌, ◌++◌, length,
  take, replicate, ltb, ◌==◌, if◌then◌else◌, assert, ◌>>=◌, ◌>>◌,
}

-- `kLargeBuffer`.
abbrev pub large_buffer : ℕ
large_buffer = 4000 * 1000

-- A `FixedBuffer<kLargeBuffer>`: the bytes before `cur_`.
abbrev pub Buffer : Type 0
Buffer = List ℕ

abbrev pub avail : Buffer → ℕ
avail b = large_buffer - length b

-- `FixedBuffer::append`: a line that does not fit is left out.
unfoldable pub append_line : Buffer → List ℕ → Buffer
append_line b line = if ltb (length line) (avail b) then b ++ line else b

-- `next` and the two spare buffers are pointers that may be null. `writing` is `buffersToWrite`,
-- from the exchange on until it has been written, and `output` is what the log file was given.
pub record AsyncLogging : Type 0 where
  pub current : Buffer
  pub next : Option Buffer
  pub buffers : List Buffer
  pub new_buffer1 : Option Buffer
  pub new_buffer2 : Option Buffer
  pub writing : Option (List Buffer)
  pub output : List ℕ

-- The constructor, and the start of `threadFunc`.
unfoldable pub create : AsyncLogging
create = record {
  current = [];
  next = some [];
  buffers = [];
  new_buffer1 = some [];
  new_buffer2 = some [];
  writing = none;
  output = [];
}

-- The next buffer, or a new one.
abbrev pub or_new : Option Buffer → Buffer
or_new none = []
or_new (some b) = b

unfoldable pub append : AsyncLogging → List ℕ → AsyncLogging
append a line =
    if ltb (length line) (avail a.current)
    then record a { current = append_line a.current line }
    else record a {
      buffers = a.buffers ++ (a.current ∷ []);
      current = append_line (or_new a.next) line;
      next = none;
    }

-- A pointer to an empty buffer.
abbrev pub is_empty : Option Buffer → Bool
is_empty none = false
is_empty (some []) = true
is_empty (some (x ∷ xs)) = false

abbrev pub is_null : Option Buffer → Bool
is_null none = true
is_null (some b) = false

abbrev pub is_done : Option (List Buffer) → Bool
is_done none = true
is_done (some bs) = false

-- The head of the loop of `threadFunc` and its critical section. A null `newBuffer1` would be moved
-- into `currentBuffer_`.
unfoldable pub exchange : AsyncLogging → Option AsyncLogging
exchange a = do
  assert (is_empty a.new_buffer1)
  assert (is_empty a.new_buffer2)
  assert (is_done a.writing)
  some (record a {
    writing = some (a.buffers ++ (a.current ∷ []));
    buffers = [];
    current = or_new a.new_buffer1;
    new_buffer1 = none;
    next = if is_null a.next then a.new_buffer2 else a.next;
    new_buffer2 = if is_null a.next then none else a.new_buffer2;
  })

abbrev pub concat : List Buffer → List ℕ
concat [] = []
concat (b ∷ bs) = b ++ concat bs

-- What is kept for writing: with more than 25 buffers, only the first two.
abbrev pub kept : List Buffer → List Buffer
kept bs = if ltb 25 (length bs) then take 2 bs else bs

-- `resize(2)` after the writing.
abbrev pub resized : List Buffer → List Buffer
resized bs = if ltb 10 (length bs) then take 2 bs else bs

-- A null spare takes the last of the written buffers, which is reset; with none left an assertion
-- fails. The result is the number of buffers left.
unfoldable pub refill : Option Buffer → ℕ → Option (Option Buffer × ℕ)
refill (some b) n = some (some b, n)
refill none n = assert (ltb 0 n) >>= λ _. some (some [], n - 1)

-- The rest of the loop. Outside the critical section it touches only what the back end owns.
unfoldable pub write_out : AsyncLogging → Option AsyncLogging
write_out a = elim a.writing [
  | none ↦ none
  | some bs ↦ do
    assert (ltb 0 (length bs))
    let left = length (resized (kept bs))
    (buffer1, left1) ← refill a.new_buffer1 left
    (buffer2, left2) ← refill a.new_buffer2 left1
    some (record a {
      output = a.output ++ concat (kept bs);
      new_buffer1 = buffer1;
      new_buffer2 = buffer2;
      writing = none;
    })
]
