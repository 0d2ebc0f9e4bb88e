-- ===== src/LogFile/Stream.antt =====
-- A stream of stdio(3), as irono/base/FileUtil.cc uses it.
use irono.Base.{ℕ, ◌≤◌, ◌≡◌, Bool, true, List, ◌++◌, length, take}

-- `given` are the bytes that the stream has taken, and `on_disk` those that have left its buffer.
-- The laws say that fwrite(3) takes a beginning of the bytes and returns how many, and that
-- fflush(3) writes out what the buffer has unless it reports an error.
pub record Stdio : Type 1 where
  pub State : Type 0
  pub fwrite : List ℕ → State → State × ℕ
  pub fflush : State → State × Bool
  pub given : State → List ℕ
  pub on_disk : State → List ℕ
  pub fwrite_le : (bytes : List ℕ) (s : State) → (fwrite bytes s).1 ≤ length bytes
  pub fwrite_given :
      (bytes : List ℕ) (s : State)
      → given (fwrite bytes s).0 ≡ given s ++ take (fwrite bytes s).1 bytes
  pub fwrite_on_disk :
      (bytes : List ℕ) (s : State)
      → (more : List ℕ) × (on_disk (fwrite bytes s).0 ≡ on_disk s ++ more)
  pub fflush_given : (s : State) → given (fflush s).0 ≡ given s
  pub fflush_on_disk : (s : State) → (fflush s).1 ≡ true → on_disk (fflush s).0 ≡ given s
