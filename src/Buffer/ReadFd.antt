-- ===== src/Buffer/ReadFd.antt =====
-- `readFd`: reading into the array and, past its end, through `extrabuf` (irono/net/Buffer.cc).
use irono.Base.{
  ℕ, ◌+◌, ◌-◌, ◌≤◌, ◌<◌, ◌≡◌, false, ap, ◌∙◌, inl, inr, some, List, ◌++◌, length, take, drop, arith,
  leb, Bool-cases, Returns, Returns-mono, Returns_of_eq, append_assoc, length-overlay, length-take,
  length-drop, take-all, take-append-drop,
}
use irono.Buffer.{Buffer, writable_bytes, append, got, read_fd, extrabuf_size}
use irono.Buffer.Inv.{IsValid, content, max_size}
use irono.Buffer.Append.{written, written_lem, append_lem, Appended}

spilled :
    (b : Buffer) (bytes : List ℕ)
    → IsValid b
    → leb (length bytes) (writable_bytes b) ≡ false
    → read_fd b (got bytes)
      ≡ append (written b (take (writable_bytes b) bytes)) (drop (writable_bytes b) bytes)
unfolding read_fd written
spilled b bytes v long = ground (
  arith,
  length-overlay b.buffer b.writer_index (take (writable_bytes b) bytes),
  length-take (writable_bytes b) bytes,
)

-- The first part fills the array to its end, and the second is appended.
spilled_lem :
    (b : Buffer) (bytes : List ℕ)
    → IsValid b
    → length b.buffer + extrabuf_size < max_size
    → length bytes ≤ writable_bytes b + extrabuf_size
    → leb (length bytes) (writable_bytes b) ≡ false
    → Returns
        (append (written b (take (writable_bytes b) bytes)) (drop (writable_bytes b) bytes))
        (λ b'. IsValid b' × (content b' ≡ content b ++ bytes))
unfolding written
spilled_lem b bytes v small fits long =
    let n = writable_bytes b in
    let sizes : (n ≡ length b.buffer - b.writer_index)
        × (length (take n bytes) ≡ n)
        × (length (drop n bytes) ≡ length bytes - n) =
      (omega arith, ground (arith, length-take n bytes), length-drop n bytes) in
    let (valid, first) = written_lem b (take n bytes) v (omega (arith, sizes)) in
    Returns-mono (append (written b (take n bytes)) (drop n bytes))
      (Appended (written b (take n bytes)) (drop n bytes))
      (λ b'. IsValid b' × (content b' ≡ content b ++ bytes))
      (append_lem (written b (take n bytes)) (drop n bytes) valid (omega (arith, sizes)))
      (λ b' r. (
        r.valid,
        r.bytes_behind
            ∙ ap (λ xs. xs ++ drop n bytes) first
            ∙ append_assoc (content b) (take n bytes) (drop n bytes)
            ∙ ap (◌++◌ (content b)) (take-append-drop n bytes),
      ))

-- `readFd` into a valid buffer, whose array is more than `extrabuf` short of 2^63, comes back:
-- whatever `readv` stored, at most what the two parts hold, stands behind what was there before,
-- and the buffer is valid again.
pub read_fd_lem :
    (b : Buffer) (bytes : List ℕ)
    → IsValid b
    → length b.buffer + extrabuf_size < max_size
    → length bytes ≤ writable_bytes b + extrabuf_size
    → Returns (read_fd b (got bytes)) (λ b'. IsValid b' × (content b' ≡ content b ++ bytes))
unfolding read_fd written
read_fd_lem b bytes v small fits = elim (Bool-cases (leb (length bytes) (writable_bytes b))) [
  | inl short ↦
      Returns_of_eq _
        (let e : read_fd b (got bytes) ≡ some (written b bytes) =
            ground (arith, take-all (writable_bytes b) bytes) in
          e)
        (written_lem b bytes v (ground arith))
  | inr long ↦ rw (spilled b bytes v long) (spilled_lem b bytes v small fits long)
]
