-- ===== src/Buffer.antt =====
-- The byte buffer of irono/net/Buffer.h and Buffer.cc. Pointers into the array are indices;
-- an operation that contains an `assert` may stop, and returns `none` then.
pub mod Inv
pub mod Append
pub mod Retrieve
pub mod ReadFd
pub mod Shrink
pub mod Refine
mod Tests
use irono.Base.{
  ℕ, ◌+◌, ◌-◌, Option, none, some, List, ◌++◌, ◌&&◌, length, slice, overlay, take, drop, replicate,
  add_size, sub_size, ltb, leb, if◌then◌else◌, assert, ◌>>=◌, ◌>>◌,
}

abbrev pub cheap_prepend : ℕ
cheap_prepend = 8

abbrev pub initial_size : ℕ
initial_size = 1024

-- `extrabuf` of `readFd`.
abbrev pub extrabuf_size : ℕ
extrabuf_size = 65536

pub record Buffer : Type 0 where
  pub buffer : List ℕ
  pub reader_index : ℕ
  pub writer_index : ℕ

abbrev pub readable_bytes : Buffer → ℕ
readable_bytes b = sub_size b.writer_index b.reader_index

abbrev pub writable_bytes : Buffer → ℕ
writable_bytes b = sub_size (length b.buffer) b.writer_index

abbrev pub prependable_bytes : Buffer → ℕ
prependable_bytes b = b.reader_index

-- The constructor; its three asserts are about constants.
unfoldable pub create : Buffer
create = record {
  buffer = replicate (cheap_prepend + initial_size) 0;
  reader_index = cheap_prepend;
  writer_index = cheap_prepend;
}

unfoldable pub swap : Buffer → Buffer → Buffer × Buffer
swap b rhs = (rhs, b)

unfoldable pub retrieve : Buffer → ℕ → Option Buffer
retrieve b len = do
  assert (leb len (readable_bytes b))
  some (record b { reader_index = add_size b.reader_index len })

-- `end` is an index into the array.
unfoldable pub retrieve_until : Buffer → ℕ → Option Buffer
retrieve_until b end = do
  assert (leb b.reader_index end)
  assert (leb end b.writer_index)
  retrieve b (sub_size end b.reader_index)

unfoldable pub retrieve_all : Buffer → Buffer
retrieve_all b = record b { reader_index = cheap_prepend; writer_index = cheap_prepend }

unfoldable pub retrieve_as_string : Buffer → List ℕ × Buffer
unfolding retrieve_all
retrieve_as_string b = (slice b.buffer b.reader_index (readable_bytes b), retrieve_all b)

-- `std::vector::resize`: new elements are zero.
abbrev resize : List ℕ → ℕ → List ℕ
resize xs n = take n xs ++ replicate (n - length xs) 0

unfoldable pub move_to_front : Buffer → Option Buffer
move_to_front b = do
  assert (ltb cheap_prepend b.reader_index)
  let readable = readable_bytes b
  let moved = record b {
    buffer = overlay b.buffer cheap_prepend (slice b.buffer b.reader_index readable);
    reader_index = cheap_prepend;
    writer_index = add_size cheap_prepend readable;
  }
  assert (leb readable (readable_bytes moved) && leb (readable_bytes moved) readable)
  some moved

unfoldable pub make_space : Buffer → ℕ → Option Buffer
make_space b len =
    if ltb (add_size (writable_bytes b) (prependable_bytes b)) (add_size len cheap_prepend)
    then some (record b { buffer = resize b.buffer (add_size b.writer_index len) })
    else move_to_front b

unfoldable pub ensure_writable_bytes : Buffer → ℕ → Option Buffer
ensure_writable_bytes b len = do
  b' ← if ltb (writable_bytes b) len then make_space b len else some b
  assert (leb len (writable_bytes b'))
  some b'

unfoldable pub has_written : Buffer → ℕ → Buffer
has_written b len = record b { writer_index = add_size b.writer_index len }

unfoldable pub append : Buffer → List ℕ → Option Buffer
append b bytes = do
  b' ← ensure_writable_bytes b (length bytes)
  some (has_written (record b' { buffer = overlay b'.buffer b'.writer_index bytes }) (length bytes))

unfoldable pub prepend : Buffer → List ℕ → Option Buffer
prepend b bytes = do
  assert (leb (length bytes) (prependable_bytes b))
  let start = sub_size b.reader_index (length bytes)
  some (record b { buffer = overlay b.buffer start bytes; reader_index = start })

-- As the source has it: only the array is replaced, and the two indices stay.
unfoldable pub shrink : Buffer → ℕ → Buffer
shrink b reserve = record b {
  buffer =
      overlay (replicate (add_size (add_size cheap_prepend (readable_bytes b)) reserve) 0)
        cheap_prepend (slice b.buffer b.reader_index (readable_bytes b));
}

-- What `readv` returned: the bytes that it stored, or -1 with `errno`.
pub data Read : Type 0 where
  got : List ℕ → Read
  failed : ℕ → Read

-- `readv` fills the writable part first, then `extrabuf`. The result is `n`, or `savedErrno`.
unfoldable pub read_fd : Buffer → Read → Option Buffer
read_fd b (failed errno) = some b
read_fd b (got bytes) =
    let writable = writable_bytes b in
    let filled = record b { buffer = overlay b.buffer b.writer_index (take writable bytes) } in
    if leb (length bytes) writable
    then some (record filled { writer_index = add_size b.writer_index (length bytes) })
    else append (record filled { writer_index = length filled.buffer }) (drop writable bytes)
