-- ===== src/Buffer/Retrieve.antt =====
-- `retrieve`, `retrieveUntil`, `retrieveAsString` and `prepend` (irono/net/Buffer.h).
use irono.Base.{
  ℕ, ◌+◌, ◌-◌, ◌≤◌, ◌<◌, ◌≡◌, refl, sym, ap, ap₂, ◌∙◌, none, some, List, [], ◌++◌, length, slice,
  overlay, drop, arith, Returns, Returns_of_eq, length-overlay, length-slice, slice-overlay_self,
  slice-overlay_above, slice-add, drop-append,
}
use irono.Buffer.{Buffer, readable_bytes, retrieve, retrieve_until, retrieve_as_string, prepend}
use irono.Buffer.Inv.{IsValid, content, length-content}

advanced : Buffer → ℕ → Buffer
advanced b len = record b { reader_index = b.reader_index + len }

advanced_lem :
    (b : Buffer) (len : ℕ)
    → IsValid b
    → len ≤ b.writer_index - b.reader_index
    → IsValid (advanced b len) × (content (advanced b len) ≡ drop len (content b))
unfolding advanced
advanced_lem b len v h = (omega arith, sym split)
  where
    open b use {buffer as buf, reader_index as r, writer_index as w}

    split : drop len (slice buf r (w - r)) ≡ slice buf (r + len) (w - (r + len))
    split =
        ap (λ n. drop len (slice buf r n))
          (let e : w - r ≡ len + (w - (r + len)) = omega arith in e)
        ∙ ap (drop len) (slice-add buf r len (w - (r + len)))
        ∙ drop-append len (slice buf r len) (slice buf (r + len) (w - (r + len)))
            (length-slice buf r len (omega arith))

-- `retrieve` of no more than the readable bytes of a valid buffer comes back, drops the first `len`
-- of them, and leaves a valid buffer.
pub retrieve_lem :
    (b : Buffer) (len : ℕ)
    → IsValid b
    → len ≤ length (content b)
    → Returns (retrieve b len) (λ b'. IsValid b' × (content b' ≡ drop len (content b)))
unfolding retrieve advanced
retrieve_lem b len v h =
    Returns_of_eq _
      (let e : retrieve b len ≡ some (advanced b len) = ground (arith, length-content b v) in e)
      (advanced_lem b len v (omega (arith, length-content b v)))

-- It stops at an assert when the buffer has fewer.
pub retrieve_too_many :
    (b : Buffer) (len : ℕ) → IsValid b → length (content b) < len → retrieve b len ≡ none
unfolding retrieve
retrieve_too_many b len v h = ground (arith, length-content b v)

-- In a valid buffer, for an index `end` between the reader's and the writer's, `retrieveUntil`
-- comes back, drops the readable bytes before `end`, and leaves a valid buffer whose reader index
-- is `end`.
pub retrieve_until_lem :
    (b : Buffer) (end : ℕ)
    → IsValid b
    → b.reader_index ≤ end
    → end ≤ b.writer_index
    → Returns (retrieve_until b end) (λ b'.
      IsValid b' × (b'.reader_index ≡ end) × (content b' ≡ drop (end - b.reader_index) (content b)))
unfolding retrieve_until retrieve advanced
retrieve_until_lem b end v h k =
    let e : retrieve_until b end ≡ some (advanced b (end - b.reader_index)) = ground arith in
    let (valid, rest) = advanced_lem b (end - b.reader_index) v (omega arith) in
    Returns_of_eq _ e (valid, omega arith, rest)

-- `retrieveAsString` gives all readable bytes of a valid buffer and leaves a valid one with none.
pub retrieve_as_string_lem :
    (b : Buffer)
    → IsValid b
    → ((retrieve_as_string b).0 ≡ content b)
      × IsValid (retrieve_as_string b).1
      × (content (retrieve_as_string b).1 ≡ [])
unfolding retrieve_as_string
retrieve_as_string_lem b v = (
  ap (slice b.buffer b.reader_index)
      (let e : readable_bytes b ≡ b.writer_index - b.reader_index = omega arith in e),
  omega arith,
  refl,
)

prepended : Buffer → List ℕ → Buffer
prepended b bytes = record b {
  buffer = overlay b.buffer (b.reader_index - length bytes) bytes;
  reader_index = b.reader_index - length bytes;
}

prepended_lem :
    (b : Buffer) (bytes : List ℕ)
    → IsValid b
    → length bytes ≤ b.reader_index
    → IsValid (prepended b bytes) × (content (prepended b bytes) ≡ bytes ++ content b)
unfolding prepended
prepended_lem b bytes v h = (
  omega (arith, length-overlay buf start bytes),
  ap (slice after start) (let e : w - start ≡ length bytes + (w - r) = omega arith in e)
      ∙ slice-add after start (length bytes) (w - r)
      ∙ ap₂ ◌++◌ (slice-overlay_self buf start bytes (omega arith)) (
          ap (λ i. slice after i (w - r)) (let e : start + length bytes ≡ r = omega arith in e)
          ∙ slice-overlay_above buf r (w - r) start bytes (omega arith)),
)
  where
    open b use {buffer as buf, reader_index as r, writer_index as w}

    start : ℕ
    start = r - length bytes

    after : List ℕ
    after = overlay buf start bytes

-- `prepend` to a valid buffer, given as many prependable bytes, comes back, puts the bytes before
-- the readable ones, and leaves a valid buffer.
pub prepend_lem :
    (b : Buffer) (bytes : List ℕ)
    → IsValid b
    → length bytes ≤ b.reader_index
    → Returns (prepend b bytes) (λ b'. IsValid b' × (content b' ≡ bytes ++ content b))
unfolding prepend prepended
prepend_lem b bytes v h =
    Returns_of_eq _ (let e : prepend b bytes ≡ some (prepended b bytes) = ground arith in e)
      (prepended_lem b bytes v h)
