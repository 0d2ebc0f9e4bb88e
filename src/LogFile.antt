-- ===== src/LogFile.antt =====
-- The log file of irono/base/LogFile.h and LogFile.cc, over the stream of irono/base/FileUtil.cc.
pub mod Stream
pub mod Append
pub mod Flush
mod Tests
use irono.Base.{
  ℕ, zero, suc, ◌+◌, ◌-◌, Option, none, some, List, length, drop, leb, ◌==◌, if◌then◌else◌, ◌>>=◌,
}
use Stream.{Stdio}

module _ (F : Stdio) where
  -- `AppendFile::write`.
  abbrev pub write : List ℕ → Stdio.State F → Stdio.State F × ℕ
  write bytes s = Stdio.fwrite F bytes s

  -- The loop of `AppendFile::append`, with `n` bytes of the line written. It ends with the number of
  -- bytes written in the end.
  unfoldable pub append_rest : ℕ → List ℕ → ℕ → Stdio.State F → Option (Stdio.State F × ℕ)
  append_rest zero line n s = none
  append_rest (suc fuel) line n s =
      let w = write (drop n line) s in
      let rest = append_rest fuel line (n + w.1) (w.0) in
      if length line - n == 0 then some (s, n) else (if w.1 == 0 then some (w.0, n) else rest)

  -- `AppendFile::append`. Each round but the last writes at least one byte.
  unfoldable pub append_file : List ℕ → Stdio.State F → Option (Stdio.State F × ℕ)
  unfolding append_rest
  append_file line s = let w = write line s in append_rest (length line + 1) line (w.1) (w.0)

  -- `flush_every_n` is not negative here.
  pub record LogFile : Type 0 where
    pub flush_every_n : ℕ
    pub count : ℕ
    pub file : Stdio.State F

  unfoldable pub create : ℕ → Stdio.State F → LogFile
  create flush_every_n file = record { flush_every_n = flush_every_n; count = 0; file = file }

  unfoldable pub flush : LogFile → LogFile
  flush l = record l { file = (Stdio.fflush F l.file).0 }

  -- `append_unlocked`, and `append`, which takes the lock around it.
  unfoldable pub append : LogFile → List ℕ → Option LogFile
  unfolding append_file flush
  append l line = append_file line l.file >>= λ r.
      let l' = record l { file = r.0; count = l.count + 1 } in
      some (if leb l'.flush_every_n l'.count then flush (record l' { count = 0 }) else l')
