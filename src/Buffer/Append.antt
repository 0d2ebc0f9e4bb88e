-- ===== src/Buffer/Append.antt =====
-- `append` and the making of room for it (irono/net/Buffer.h).
use irono.Base.{
  min, ℕ, ◌+◌, ◌-◌, ◌%◌, ◌^◌, ◌≤◌, ◌<◌, ◌≡◌, refl, ap, ap₂, ◌∙◌, inl, inr, some, List, ◌++◌, length,
  slice, overlay, take, replicate, arith, ltb, leb, Bool-cases, if◌then◌else◌, Returns,
  Returns-assert, Returns-bind, Returns_of_eq, length-append, length-take, take-all,
  length-replicate, length-overlay, slice-overlay_below, slice-overlay_self, slice-append,
  slice-add,
}
use irono.Buffer.{
  cheap_prepend, Buffer, writable_bytes, resize, move_to_front, make_space, ensure_writable_bytes,
  has_written, append,
}
use irono.Buffer.Inv.{IsValid, content, length-content, max_size}

-- `b'` holds what `b` holds, and has room for `len` more bytes.
pub record Roomy (b : Buffer) (len : ℕ) (b' : Buffer) : Type 0 where
  pub valid : IsValid b'
  pub same : content b' ≡ content b
  pub readable : b'.writer_index - b'.reader_index ≡ b.writer_index - b.reader_index
  pub room : b'.writer_index + len ≤ length b'.buffer
  pub front : min cheap_prepend b.reader_index ≤ b'.reader_index

length-resize : (xs : List ℕ) (n : ℕ) → length (resize xs n) ≡ n
length-resize xs n = omega (
  arith,
  length-append (take n xs) (replicate (n - length xs) 0),
  length-take n xs,
  length-replicate {A = ℕ} (n - length xs) 0,
)

slice-resize :
    (xs : List ℕ) (n i k : ℕ)
    → length xs ≤ n
    → i + k ≤ length xs
    → slice (resize xs n) i k ≡ slice xs i k
slice-resize xs n i k g h =
    rw (take-all n xs g) (slice-append xs (replicate (n - length xs) 0) i k h)

abbrev moved : Buffer → Buffer
moved b = record b {
  buffer = overlay b.buffer 8 (content b);
  reader_index = 8;
  writer_index = 8 + (b.writer_index - b.reader_index);
}

move_to_front-eq : (b : Buffer) → IsValid b → 8 < b.reader_index → move_to_front b ≡ some (moved b)
unfolding move_to_front
move_to_front-eq b v h = ground arith

moved-Roomy :
    (b : Buffer) (len : ℕ)
    → IsValid b
    → 8 < b.reader_index
    → len + 8 ≤ length b.buffer - b.writer_index + b.reader_index
    → Roomy b len (moved b)
moved-Roomy b len v h r = record {
  valid = omega (arith, length-overlay b.buffer 8 (content b));
  same =
      ap (slice (overlay b.buffer 8 (content b)) 8) (
        let e : 8 + (b.writer_index - b.reader_index) - 8 ≡ length (content b) =
          omega (arith, length-content b v) in
        e)
      ∙ slice-overlay_self b.buffer 8 (content b) (omega (arith, length-content b v));
  readable = omega arith;
  room = omega (arith, length-overlay b.buffer 8 (content b));
  front = omega arith;
}

grown : Buffer → ℕ → Buffer
grown b len = record b { buffer = resize b.buffer (b.writer_index + len) }

grown-Roomy :
    (b : Buffer) (len : ℕ)
    → IsValid b
    → b.writer_index + len < max_size
    → length b.buffer ≤ b.writer_index + len
    → Roomy b len (grown b len)
unfolding grown
grown-Roomy b len v h r = record {
  valid = omega (arith, length-resize b.buffer (b.writer_index + len));
  same = slice-resize b.buffer _ b.reader_index _ r (omega arith);
  readable = refl;
  room = omega (arith, length-resize b.buffer (b.writer_index + len));
  front = omega arith;
}

make_space-eq :
    (b : Buffer) (len : ℕ)
    → IsValid b
    → b.writer_index + len < max_size
    → make_space b len ≡ (
        if ltb (length b.buffer - b.writer_index + b.reader_index) (len + 8)
        then some (grown b len)
        else move_to_front b)
unfolding make_space grown
make_space-eq b len v h = ground arith

-- Neither assert on the way fails: `make_space` moves only what leaves room at the front.
make_space-Roomy :
    (b : Buffer) (len : ℕ)
    → IsValid b
    → b.writer_index + len < max_size
    → length b.buffer < b.writer_index + len
    → Returns (make_space b len) (Roomy b len)
make_space-Roomy b len v h r =
    elim (Bool-cases (ltb (length b.buffer - b.writer_index + b.reader_index) (len + 8))) [
      | inl short ↦
          Returns_of_eq (Roomy b len) (rw (make_space-eq b len v h, short))
            (grown-Roomy b len v h (omega arith))
      | inr enough ↦
          Returns_of_eq (Roomy b len)
            (rw (make_space-eq b len v h, enough) (move_to_front-eq b v (ground arith)))
            (moved-Roomy b len v (ground arith) (ground arith))
    ]

-- In a valid buffer `ensure_writable_bytes` always comes back, with room and with the same bytes,
-- as long as the array stays below 2^63.
pub ensure_writable_bytes-Roomy :
    (b : Buffer) (len : ℕ)
    → IsValid b
    → b.writer_index + len < max_size
    → Returns (ensure_writable_bytes b len) (Roomy b len)
unfolding ensure_writable_bytes
ensure_writable_bytes-Roomy b len v h = elim (Bool-cases (ltb (writable_bytes b) len)) [
  | inl short ↦ rw short (
      Returns-bind (make_space b len) _ (Roomy b len) (Roomy b len)
        (make_space-Roomy b len v h (ground arith))
        (λ b' r.
          Returns-assert (leb len (writable_bytes b')) (some b') (Roomy b len) (ground arith) r))
  | inr enough ↦ rw enough (
      Returns-assert (leb len (writable_bytes b)) (some b) (Roomy b len) (ground arith) (record {
        valid = v;
        same = refl;
        readable = refl;
        room = ground arith;
        front = omega arith;
      }))
]

unfoldable pub written : Buffer → List ℕ → Buffer
written b bytes = record b {
  buffer = overlay b.buffer b.writer_index bytes;
  writer_index = b.writer_index + length bytes;
}

pub written_lem :
    (b : Buffer) (bytes : List ℕ)
    → IsValid b
    → b.writer_index + length bytes ≤ length b.buffer
    → IsValid (written b bytes) × (content (written b bytes) ≡ content b ++ bytes)
unfolding written
written_lem b bytes v h = (
  omega (arith, length-overlay buf w bytes),
  ap (slice after r) (let e : w + length bytes - r ≡ (w - r) + length bytes = omega arith in e)
      ∙ slice-add after r (w - r) (length bytes)
      ∙ ap₂ ◌++◌ (slice-overlay_below buf r (w - r) w bytes (omega arith)) (
          ap (λ i. slice after i (length bytes)) (let e : r + (w - r) ≡ w = omega arith in e)
          ∙ slice-overlay_self buf w bytes h),
)
  where
    open b use {buffer as buf, reader_index as r, writer_index as w}

    after : List ℕ
    after = overlay buf w bytes

pub record Appended (b : Buffer) (bytes : List ℕ) (b' : Buffer) : Type 0 where
  pub valid : IsValid b'
  pub bytes_behind : content b' ≡ content b ++ bytes
  pub front : min cheap_prepend b.reader_index ≤ b'.reader_index

-- `append` to a valid buffer always comes back, as long as the array stays below 2^63: the result is
-- valid, the bytes stand behind those that were there, and no more of the prepend space is gone than
-- was gone before.
pub append_lem :
    (b : Buffer) (bytes : List ℕ)
    → IsValid b
    → b.writer_index + length bytes < max_size
    → Returns (append b bytes) (Appended b bytes)
unfolding append has_written written
append_lem b bytes v h =
    Returns-bind (ensure_writable_bytes b (length bytes)) _ (Roomy b (length bytes))
      (Appended b bytes) (ensure_writable_bytes-Roomy b (length bytes) v h)
      (λ b' r.
        let (valid, same) = written_lem b' bytes r.valid r.room in
        let e : (b'.writer_index + length bytes) % 2 ^ 64 ≡ b'.writer_index + length bytes =
          ground arith in
        rw e (record { valid = valid; bytes_behind = rw r.same at same; front = r.front }))
