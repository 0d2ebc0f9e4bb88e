-- ===== src/LogFile/Append.antt =====
-- How much of a line reaches the stream (irono/base/FileUtil.cc).
use irono.Base.{
  ℕ, zero, suc, ◌+◌, ◌-◌, ◌≤◌, ◌<◌, ◌≡◌, ◌⊎◌, inl, inr, refl, sym, ap, ◌∙◌, List, [], ◌∷◌, ◌++◌,
  length, take, drop, ◌==◌, arith, Bool-cases, Returns, append_assoc, ==_iff, length-drop,
}
use native.Mathlib.Nat.{zero-add}
use irono.LogFile.{append_rest, append_file}
use irono.LogFile.Stream.{Stdio}

take-nil : (k : ℕ) → take {A = ℕ} k [] ≡ []
take-nil zero = refl
take-nil (suc k) = refl

take-add : (xs : List ℕ) (n k : ℕ) → take (n + k) xs ≡ take n xs ++ take k (drop n xs)
take-add xs zero k = ap (λ i. take i xs) (zero-add k)
take-add [] (suc n) k = take-nil (suc n + k) ∙ sym (take-nil k)
take-add (x ∷ xs) (suc n) k =
    let e : suc n + k ≡ suc (n + k) = omega arith in rw e (ap (λ ys. x ∷ ys) (take-add xs n k))

module _ (F : Stdio) where
  -- The stream did not take a byte of the rest.
  abbrev pub Refused : List ℕ → Type 0
  Refused rest = (t : Stdio.State F) × ((Stdio.fwrite F rest t).1 ≡ 0)

  -- `n` bytes of the line have been written: all, or as many as the stream took before it refused.
  pub record Written (s : Stdio.State F) (line : List ℕ) (r : Stdio.State F × ℕ) : Type 0 where
    pub bound : r.1 ≤ length line
    pub given : Stdio.given F (r.0) ≡ Stdio.given F s ++ take (r.1) line
    pub all_or_refused : (r.1 ≡ length line) ⊎ Refused (drop (r.1) line)
    pub on_disk : (more : List ℕ) × (Stdio.on_disk F (r.0) ≡ Stdio.on_disk F s ++ more)

  -- Where the stream is after one more `fwrite`, of what is left.
  record Progress (s : Stdio.State F) (line : List ℕ) (n : ℕ) (t : Stdio.State F) : Type 0 where
    pub bound : n ≤ length line
    pub given : Stdio.given F t ≡ Stdio.given F s ++ take n line
    pub on_disk : (more : List ℕ) × (Stdio.on_disk F t ≡ Stdio.on_disk F s ++ more)

  write-Progress :
      (s : Stdio.State F) (line : List ℕ) (n : ℕ) (t : Stdio.State F)
      → Progress s line n t
      → let w = Stdio.fwrite F (drop n line) t in Progress s line (n + w.1) (w.0)
  write-Progress s line n t p =
      let rest = drop n line in
      let (more, here) = p.on_disk in
      let (new, there) = Stdio.fwrite_on_disk F rest t in
      record {
        bound = omega (arith, p.bound, Stdio.fwrite_le F rest t, length-drop n line);
        given =
            Stdio.fwrite_given F rest t
            ∙ ap (λ xs. xs ++ take (Stdio.fwrite F rest t).1 rest) p.given
            ∙ append_assoc (Stdio.given F s) (take n line) (take (Stdio.fwrite F rest t).1 rest)
            ∙ ap (λ xs. Stdio.given F s ++ xs) (sym (take-add line n (Stdio.fwrite F rest t).1));
        on_disk = (
          more ++ new,
          there ∙ ap (λ xs. xs ++ new) here ∙ append_assoc (Stdio.on_disk F s) more new,
        );
      }

  append_rest-Written :
      (fuel : ℕ) (s : Stdio.State F) (line : List ℕ) (n : ℕ) (t : Stdio.State F)
      → length line - n < fuel
      → Progress s line n t
      → Returns (append_rest F fuel line n t) (Written s line)
  unfolding append_rest
  append_rest-Written zero s line n t enough p = absurd (omega arith)
  append_rest-Written (suc fuel) s line n t enough p =
      let w = Stdio.fwrite F (drop n line) t in
      let p' = write-Progress s line n t p in
      elim (Bool-cases (length line - n == 0)) [
        | inl e ↦
            let all : n ≡ length line = ground (arith, p.bound) in
            rw e (record {
              bound = p.bound;
              given = p.given;
              all_or_refused = inl all;
              on_disk = p.on_disk;
            })
        | inr e ↦ elim (Bool-cases (w.1 == 0)) [
          | inl z ↦
              let none_taken : n + w.1 ≡ n = ground arith in
              rw (e, z)
                (record {
                  bound = p.bound;
                  given = p'.given ∙ ap (λ k. Stdio.given F s ++ take k line) none_taken;
                  all_or_refused = inr (t, (==_iff (w.1) 0).0 z);
                  on_disk = p'.on_disk;
                })
          | inr z ↦ rw (e, z) (append_rest-Written fuel s line (n + w.1) (w.0) (ground arith) p')
        ]
      ]

  -- `AppendFile::append` ends on any stream. It has written a beginning of the line: all of it, or
  -- as many bytes as there were when the stream took none of the rest. Nothing else reaches the
  -- stream, and what was on disk stays there.
  pub append_file-Written :
      (s : Stdio.State F) (line : List ℕ) → Returns (append_file F line s) (Written s line)
  unfolding append_file
  append_file-Written s line =
      append_rest-Written (length line + 1) s line (Stdio.fwrite F line s).1
        (Stdio.fwrite F line s).0 (omega arith)
        (record {
          bound = Stdio.fwrite_le F line s;
          given = Stdio.fwrite_given F line s;
          on_disk = Stdio.fwrite_on_disk F line s;
        })
