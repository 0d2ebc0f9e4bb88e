-- ===== src/LogFile/Tests.antt =====
-- A stream that takes three bytes at a time, and a log file that flushes every second line.
use irono.Base.{
  ℕ, ◌≡◌, ◌≢◌, refl, sym, ap, zero, suc, Bool, true, List, [], ◌∷◌, ◌++◌, length, take, Returns,
  arith, append-nil, length-take,
}
use irono.LogFile.{create, append_file}
use irono.LogFile.Stream.{Stdio}
use irono.LogFile.Append.{Written, append_file-Written}
use irono.LogFile.Flush.{Op, line, flushed, run, IsSound, Adds, lines, keeps_all_but_few}

abbrev Disk : Type 0
Disk = List ℕ × List ℕ

abbrev write_three : List ℕ → Disk → Disk × ℕ
write_three bytes s = ((s.0 ++ take 3 bytes, s.1), length (take 3 bytes))

abbrev write_back : Disk → Disk × Bool
write_back s = ((s.0, s.0), true)

take-length-take : (n : ℕ) (bytes : List ℕ) → take n bytes ≡ take (length (take n bytes)) bytes
take-length-take zero bytes = refl
take-length-take (suc n) [] = refl
take-length-take (suc n) (x ∷ bytes) = ap (λ ys. x ∷ ys) (take-length-take n bytes)

abbrev slow : Stdio
slow = record {
  State = Disk;
  fwrite = write_three;
  fflush = write_back;
  given = λ s. s.0;
  on_disk = λ s. s.1;
  fwrite_le = λ bytes s. omega (arith, length-take 3 bytes);
  fwrite_given = λ bytes s. ap (λ xs. s.0 ++ xs) (take-length-take 3 bytes);
  fwrite_on_disk = λ bytes s. ([], sym (append-nil (s.1)));
  fflush_given = λ s. refl;
  fflush_on_disk = λ s h. refl;
}

takes_some : (bytes : List ℕ) → bytes ≢ [] → length (take 3 bytes) ≢ 0
takes_some [] h = absurd (h refl)
takes_some (x ∷ bytes) h = omega arith

slow-IsSound : IsSound slow
slow-IsSound = record { takes = λ bytes s h. takes_some bytes h; flushes = λ s. refl }

abbrev empty : Disk
empty = ([], [])

append_file-Written_example :
    Returns (append_file slow (1 ∷ 2 ∷ 3 ∷ 4 ∷ []) empty) (Written slow empty (1 ∷ 2 ∷ 3 ∷ 4 ∷ []))
append_file-Written_example = append_file-Written slow empty (1 ∷ 2 ∷ 3 ∷ 4 ∷ [])

abbrev ops : List Op
ops = line (1 ∷ 2 ∷ 3 ∷ 4 ∷ []) ∷ line (5 ∷ []) ∷ flushed ∷ line (6 ∷ []) ∷ []

keeps_all_but_few_example :
    Returns (run slow (create slow 2 empty) ops) (Adds slow [] (lines ops) (create slow 2 empty))
keeps_all_but_few_example = keeps_all_but_few slow 2 empty ops slow-IsSound (omega arith) refl
