-- ===== src/Buffer/Inv.antt =====
-- What holds of every buffer: the indices are in order and inside the array, and the array is one
-- that a 64-bit process can hold.
use irono.Base.{
  ℕ, ◌+◌, ◌-◌, ◌^◌, ◌≤◌, ◌<◌, ◌≡◌, sym, ap, ◌∙◌, List, length, take, slice, length-slice, slice-add,
  take-append, arith,
}
use irono.Buffer.{Buffer, cheap_prepend, readable_bytes, writable_bytes, create}

abbrev pub max_size : ℕ
max_size = 2 ^ 63

pub record IsValid (b : Buffer) : Type 0 where
  pub ordered : b.reader_index ≤ b.writer_index
  pub inside : b.writer_index ≤ length b.buffer
  pub headroom : cheap_prepend ≤ length b.buffer
  pub small : length b.buffer < max_size

-- The readable bytes.
abbrev pub content : Buffer → List ℕ
content b = slice b.buffer b.reader_index (b.writer_index - b.reader_index)

pub readable-eq : {b : Buffer} → IsValid b → readable_bytes b ≡ b.writer_index - b.reader_index
readable-eq v = omega arith

pub writable-eq : {b : Buffer} → IsValid b → writable_bytes b ≡ length b.buffer - b.writer_index
writable-eq v = omega arith

pub create-IsValid : IsValid create
unfolding create
create-IsValid = omega arith

pub length-content : (b : Buffer) → IsValid b → length (content b) ≡ b.writer_index - b.reader_index
length-content b v =
    length-slice b.buffer b.reader_index (b.writer_index - b.reader_index) (omega arith)

-- The first `k` readable bytes.
pub front-content :
    (b : Buffer) (k : ℕ)
    → IsValid b
    → k ≤ length (content b)
    → slice b.buffer b.reader_index k ≡ take k (content b)
front-content b k v h = sym (ap (λ n. take k (slice buf r n)) split ∙ cut)
  where
    open b use {buffer as buf, reader_index as r, writer_index as w}

    split : w - r ≡ k + (w - r - k)
    split = omega (arith, length-content b v)

    cut : take k (slice buf r (k + (w - r - k))) ≡ slice buf r k
    cut =
        ap (take k) (slice-add buf r k (w - r - k))
        ∙ take-append k (slice buf r k) (slice buf (r + k) (w - r - k))
            (length-slice buf r k (omega (arith, length-content b v)))
