-- ===== src/Buffer/Refine.antt =====
-- A buffer is a queue of bytes that also takes bytes at its front (irono/net/Buffer.h and Buffer.cc).
use irono.Base.{
  ℕ, ◌+◌, ◌-◌, ◌≤◌, ◌<◌, ◌≡◌, refl, ap, ◌∙◌, Option, none, some, List, [], ◌∷◌, ◌++◌, length, drop,
  arith, leb, if◌then◌else◌, ◌>>=◌, Returns, Returns-mono, subst,
}
use irono.Buffer.{
  Buffer, Read, got, failed, retrieve, retrieve_until, retrieve_all, retrieve_as_string,
  ensure_writable_bytes, append, prepend, read_fd, writable_bytes, extrabuf_size,
}
use irono.Buffer.Inv.{IsValid, content, max_size, length-content}
use irono.Buffer.Append.{append_lem, ensure_writable_bytes-Roomy}
use irono.Buffer.Retrieve.{
  retrieve_lem, retrieve_too_many, retrieve_until_lem, retrieve_as_string_lem, prepend_lem,
}
use irono.Buffer.ReadFd.{read_fd_lem}

-- The calls of a buffer. `retrieves_to k` is `retrieveUntil` with the end `k` bytes past the reader
-- index, and `reads` is `readFd` with what `readv` returned.
pub data Op : Type 0 where
  appends prepends : List ℕ → Op
  retrieves retrieves_to : ℕ → Op
  takes_all clears : Op
  ensures : ℕ → Op
  reads : Read → Op

-- One call, with the string that it returns.
unfoldable pub step : Buffer → Op → Option (Buffer × List ℕ)
step b (appends bytes) = append b bytes >>= λ b'. some (b', [])
step b (prepends bytes) = prepend b bytes >>= λ b'. some (b', [])
step b (retrieves n) = retrieve b n >>= λ b'. some (b', [])
step b (retrieves_to k) = retrieve_until b (b.reader_index + k) >>= λ b'. some (b', [])
step b takes_all = let (s, b') = retrieve_as_string b in some (b', s)
step b clears = some (retrieve_all b, [])
step b (ensures n) = ensure_writable_bytes b n >>= λ b'. some (b', [])
step b (reads r) = read_fd b r >>= λ b'. some (b', [])

-- The same call on the queue: taking more than there is fails.
unfoldable pub spec : List ℕ → Op → Option (List ℕ × List ℕ)
spec xs (appends bytes) = some (xs ++ bytes, [])
spec xs (prepends bytes) = some (bytes ++ xs, [])
spec xs (retrieves n) = if leb n (length xs) then some (drop n xs, []) else none
spec xs (retrieves_to n) = if leb n (length xs) then some (drop n xs, []) else none
spec xs takes_all = some ([], xs)
spec xs clears = some ([], [])
spec xs (ensures n) = some (xs, [])
spec xs (reads (got bytes)) = some (xs ++ bytes, [])
spec xs (reads (failed errno)) = some (xs, [])

-- Arrays stay below 2^63, a `prepend` has its room, and `readv` stores no more than it was given.
abbrev pub Fits : Buffer → Op → Type 0
Fits b (appends bytes) = b.writer_index + length bytes < max_size
Fits b (prepends bytes) = length bytes ≤ b.reader_index
Fits b (ensures n) = b.writer_index + n < max_size
Fits b (retrieves_to k) = b.reader_index + k < max_size
Fits b (reads (got bytes)) =
    (length b.buffer + extrabuf_size < max_size) × (length bytes ≤ writable_bytes b + extrabuf_size)
Fits b _ = Unit {0}

-- Both fail, or both go on with the same bytes and the same result.
abbrev pub Agrees : Option (Buffer × List ℕ) → Option (List ℕ × List ℕ) → Type 0
Agrees none none = Unit {0}
Agrees (some (b, s)) (some (xs, s')) = IsValid b × (content b ≡ xs) × (s ≡ s')
Agrees none (some _) = ⊥
Agrees (some _) none = ⊥

to_too_many :
    (b : Buffer) (k : ℕ)
    → IsValid b
    → b.reader_index + k < max_size
    → length (content b) < k
    → retrieve_until b (b.reader_index + k) ≡ none
unfolding retrieve_until retrieve
to_too_many b k v f h = ground (arith, length-content b v)

to_lem :
    (b : Buffer) (k : ℕ)
    → IsValid b
    → k ≤ length (content b)
    → Returns
        (retrieve_until b (b.reader_index + k))
        (λ b'. IsValid b' × (content b' ≡ drop k (content b)))
to_lem b k v h =
    Returns-mono (retrieve_until b (b.reader_index + k)) _ _
      (retrieve_until_lem b (b.reader_index + k) v (omega arith)
        (omega (arith, length-content b v)))
      (λ b' (w, _, e). (
        w,
        e
            ∙ ap (λ n. drop n (content b))
                (let n : b.reader_index + k - b.reader_index ≡ k = omega arith in n),
      ))

cleared : (b : Buffer) → IsValid b → IsValid (retrieve_all b) × (content (retrieve_all b) ≡ [])
unfolding retrieve_all
cleared b v = (omega arith, refl)

failed_same : (b : Buffer) (errno : ℕ) → read_fd b (failed errno) ≡ some b
unfolding read_fd
failed_same b errno = refl

step-Agrees :
    (b : Buffer) (op : Op) → IsValid b → Fits b op → Agrees (step b op) (spec (content b) op)
unfolding step spec
step-Agrees b (appends bytes) v f = ground (arith, append_lem b bytes v f)
step-Agrees b (prepends bytes) v f = ground (arith, prepend_lem b bytes v f)
step-Agrees b (retrieves n) v f = ground (arith, retrieve_lem b n v, retrieve_too_many b n v)
step-Agrees b (retrieves_to k) v f = ground (arith, to_lem b k v, to_too_many b k v f)
step-Agrees b takes_all v f = ground (arith, retrieve_as_string_lem b v)
step-Agrees b clears v f = ground (arith, cleared b v)
step-Agrees b (ensures n) v f = ground (arith, ensure_writable_bytes-Roomy b n v f)
step-Agrees b (reads (got bytes)) v f = ground (arith, read_fd_lem b bytes v f.0 f.1)
step-Agrees b (reads (failed errno)) v f = ground (arith, failed_same b errno)

-- Calls in a row, with all that they return.
unfoldable pub run : Buffer → List Op → Option (Buffer × List ℕ)
run b [] = some (b, [])
run b (op ∷ ops) = step b op >>= λ r. run (r.0) ops >>= λ s. some (s.0, r.1 ++ s.1)

unfoldable pub run_spec : List ℕ → List Op → Option (List ℕ × List ℕ)
run_spec xs [] = some (xs, [])
run_spec xs (op ∷ ops) = spec xs op >>= λ r. run_spec (r.0) ops >>= λ s. some (s.0, r.1 ++ s.1)

-- Every call fits the buffer that it meets.
pub data RunFits : Buffer → List Op → Type 0 where
  done : {b : Buffer} → RunFits b []
  next :
      {b : Buffer} (op : Op) (ops : List Op)
      → Fits b op
      → ((r : Buffer × List ℕ) → step b op ≡ some r → RunFits (r.0) ops)
      → RunFits b (op ∷ ops)

add_output :
    (m : Option (Buffer × List ℕ)) (n : Option (List ℕ × List ℕ)) (s : List ℕ)
    → Agrees m n
    → Agrees (m >>= λ t. some (t.0, s ++ t.1)) (n >>= λ t. some (t.0, s ++ t.1))
add_output none none s a = tt
add_output none (some y) s a = absurd a
add_output (some x) none s a = absurd a
add_output (some x) (some y) s (v, e, o) = (v, e, ap (λ t. s ++ t) o)

then-Agrees :
    (m : Option (Buffer × List ℕ)) (n : Option (List ℕ × List ℕ)) (ops : List Op)
    → Agrees m n
    → ((r : Buffer × List ℕ)
        → m ≡ some r
        → IsValid (r.0)
        → Agrees (run (r.0) ops) (run_spec (content (r.0)) ops))
    → Agrees
        (m >>= λ r. run (r.0) ops >>= λ s. some (s.0, r.1 ++ s.1))
        (n >>= λ r. run_spec (r.0) ops >>= λ s. some (s.0, r.1 ++ s.1))
then-Agrees none none ops a k = tt
then-Agrees none (some y) ops a k = absurd a
then-Agrees (some x) none ops a k = absurd a
then-Agrees (some (b, s)) (some (xs, t)) ops (v, e, o) k =
    rw (← e, ← o) (add_output (run b ops) (run_spec (content b) ops) s (k (b, s) refl v))

-- Any calls, each within its bounds, run on a valid buffer as they do on the queue of its readable
-- bytes: they fail on both, by taking more than there is, or go on with the same bytes and return the
-- same strings; and the buffer stays valid.
pub run-Agrees :
    (b : Buffer) (ops : List Op)
    → IsValid b
    → RunFits b ops
    → Agrees (run b ops) (run_spec (content b) ops)
unfolding run run_spec
run-Agrees b [] v done = (v, refl, refl)
run-Agrees b (op ∷ ops) v (next _ _ f k) =
    then-Agrees (step b op) (spec (content b) op) ops (step-Agrees b op v f)
      (λ r e w. run-Agrees (r.0) ops w (k r e))

-- The same for a call whose result is known.
pub next_at :
    (b : Buffer) (op : Op) (ops : List Op) (r : Buffer × List ℕ)
    → Fits b op
    → step b op ≡ some r
    → RunFits (r.0) ops
    → RunFits b (op ∷ ops)
next_at b op ops r f h k =
    next op ops f (λ r' e. let same : r ≡ r' = cc in subst (λ x. RunFits (x.0) ops) same k)
