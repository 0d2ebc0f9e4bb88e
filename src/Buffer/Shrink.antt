-- ===== src/Buffer/Shrink.antt =====
-- `shrink` (irono/net/Buffer.h) replaces the array and forgets to reset the indices.
use irono.Base.{
  ℕ, ◌+◌, ◌-◌, ◌<◌, ◌≡◌, sym, ap, ◌∙◌, length, slice, overlay, replicate, arith, length-overlay,
  length-replicate, slice-overlay_self,
}
use irono.Buffer.{Buffer, cheap_prepend, shrink}
use irono.Buffer.Inv.{IsValid, content, length-content, max_size}

shrunk : Buffer → ℕ → Buffer
shrunk b reserve = record b {
  buffer = overlay (replicate (8 + (b.writer_index - b.reader_index) + reserve) 0) 8 (content b);
}

shrink-eq :
    (b : Buffer) (reserve : ℕ)
    → IsValid b
    → length b.buffer + 8 + reserve < max_size
    → shrink b reserve ≡ shrunk b reserve
unfolding shrink shrunk
shrink-eq b reserve v h = ground arith

length-shrunk :
    (b : Buffer) (reserve : ℕ)
    → length (shrunk b reserve).buffer ≡ 8 + (b.writer_index - b.reader_index) + reserve
unfolding shrunk
length-shrunk b reserve =
    let n : ℕ = 8 + (b.writer_index - b.reader_index) + reserve in
    length-overlay (replicate n 0) 8 (content b) ∙ length-replicate n 0

content-shrunk :
    (b : Buffer) (reserve : ℕ)
    → IsValid b
    → b.reader_index ≡ 8
    → content (shrunk b reserve) ≡ content b
unfolding shrunk
content-shrunk b reserve v e =
    let n : ℕ = 8 + (b.writer_index - b.reader_index) + reserve in
    let after = overlay (replicate n 0) 8 (content b) in
    ap (λ i. slice after i (b.writer_index - b.reader_index)) e
    ∙ ap (slice after 8) (sym (length-content b v))
    ∙ slice-overlay_self (replicate n 0) 8 (content b)
        (omega (arith, length-content b v, length-replicate {A = ℕ} n 0))

-- When the readable bytes of a valid buffer stand right behind the cheap prepend space, and the
-- array with the reserve stays below 2^63, `shrink` keeps the buffer valid and its bytes as they
-- are, and leaves `reserve` writable ones.
pub shrink_in_place :
    (b : Buffer) (reserve : ℕ)
    → IsValid b
    → length b.buffer + 8 + reserve < max_size
    → b.reader_index ≡ cheap_prepend
    → IsValid (shrink b reserve)
      × (content (shrink b reserve) ≡ content b)
      × (length (shrink b reserve).buffer ≡ b.writer_index + reserve)
unfolding shrunk
shrink_in_place b reserve v h e = rw (shrink-eq b reserve v h) (
  omega (arith, length-shrunk b reserve),
  content-shrunk b reserve v e,
  omega (arith, length-shrunk b reserve),
)

-- When more than `reserve` bytes of a valid buffer have been retrieved, and the array with the
-- reserve stays below 2^63, `shrink` leaves the writer index past the end of the array.
pub shrink_invalid :
    (b : Buffer) (reserve : ℕ)
    → IsValid b
    → length b.buffer + 8 + reserve < max_size
    → cheap_prepend + reserve < b.reader_index
    → length (shrink b reserve).buffer < (shrink b reserve).writer_index
unfolding shrunk
shrink_invalid b reserve v h r =
    rw (shrink-eq b reserve v h) (omega (arith, length-shrunk b reserve))
