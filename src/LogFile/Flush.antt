-- ===== src/LogFile/Flush.antt =====
-- How much of the log may be lost in a crash (irono/base/LogFile.cc).
use irono.Base.{
  ℕ, zero, suc, ◌+◌, ◌<◌, ◌≡◌, ◌≢◌, inl, inr, refl, sym, ap, ◌∙◌, true, Option, some, List, [], ◌∷◌,
  ◌++◌, length, take, drop, leb, arith, Bool-cases, Returns, Returns-bind, Returns-mono,
  append_assoc, append-nil, subst, List-cases, length-append, length-drop, ◌>>=◌,
}
use irono.LogFile.{LogFile, create, append, flush, append_file}
use irono.LogFile.Stream.{Stdio}
use irono.LogFile.Append.{Written, append_file-Written}

pub data Op : Type 0 where
  line : List ℕ → Op
  flushed : Op

abbrev pub concat : List (List ℕ) → List ℕ
concat [] = []
concat (l ∷ ls) = l ++ concat ls

abbrev pub lines : List Op → List (List ℕ)
lines [] = []
lines (line l ∷ ops) = l ∷ lines ops
lines (flushed ∷ ops) = lines ops

concat-snoc : (ls : List (List ℕ)) (l : List ℕ) → concat (ls ++ (l ∷ [])) ≡ concat ls ++ l
concat-snoc [] l = append-nil l
concat-snoc (x ∷ ls) l = ap (λ ys. x ++ ys) (concat-snoc ls l) ∙ sym (append_assoc x (concat ls) l)

concat-append : (xs ys : List (List ℕ)) → concat (xs ++ ys) ≡ concat xs ++ concat ys
concat-append [] ys = refl
concat-append (x ∷ xs) ys =
    ap (λ zs. x ++ zs) (concat-append xs ys) ∙ sym (append_assoc x (concat xs) (concat ys))

module _ (F : Stdio) where
  unfoldable pub run : LogFile F → List Op → Option (LogFile F)
  run l [] = some l
  run l (line bytes ∷ ops) = append F l bytes >>= λ l'. run l' ops
  run l (flushed ∷ ops) = run (flush F l) ops

  -- A stream with no errors: it takes something of any bytes, and a flush works.
  pub record IsSound : Type 0 where
    pub takes : (bytes : List ℕ) (s : Stdio.State F) → bytes ≢ [] → (Stdio.fwrite F bytes s).1 ≢ 0
    pub flushes : (s : Stdio.State F) → (Stdio.fflush F s).1 ≡ true

  -- The stream, which had `base` before, was given the lines `ls`. All of them are on disk but the
  -- last `count` ones, fewer than `flush_every_n`; of those some bytes may be there.
  pub record Kept (base : List ℕ) (ls : List (List ℕ)) (l : LogFile F) : Type 0 where
    pub older : List (List ℕ)
    pub recent : List (List ℕ)
    pub split : ls ≡ older ++ recent
    pub given : Stdio.given F l.file ≡ base ++ concat ls
    pub on_disk : (more : List ℕ) × (Stdio.on_disk F l.file ≡ (base ++ concat older) ++ more)
    pub counted : length recent ≡ l.count
    pub few : l.count < l.flush_every_n

  -- More lines were added, and the period is the same.
  abbrev pub Adds : List ℕ → List (List ℕ) → LogFile F → LogFile F → Type 0
  Adds base ls l l' = Kept base ls l' × (l'.flush_every_n ≡ l.flush_every_n)

  flush-Adds :
      (base : List ℕ) (ls : List (List ℕ)) (l : LogFile F)
      → IsSound
      → Kept base ls l
      → Adds base ls l (flush F l)
  unfolding flush
  flush-Adds base ls l sound k =
      let split' : concat ls ≡ concat k.older ++ concat k.recent =
        ap concat k.split ∙ concat-append k.older k.recent in
      (
        record {
          older = k.older;
          recent = k.recent;
          split = k.split;
          given = Stdio.fflush_given F l.file ∙ k.given;
          on_disk = (
            concat k.recent,
            Stdio.fflush_on_disk F l.file (sound.flushes l.file)
                ∙ k.given
                ∙ ap (λ xs. base ++ xs) split'
                ∙ sym (append_assoc base (concat k.older) (concat k.recent)),
          );
          counted = k.counted;
          few = k.few;
        },
        refl,
      )

  whole :
      (s : Stdio.State F) (bytes : List ℕ) (r : Stdio.State F × ℕ)
      → IsSound
      → Written F s bytes r
      → Stdio.given F (r.0) ≡ Stdio.given F s ++ bytes
  whole s bytes r sound w = elim w.all_or_refused [
    | inl all ↦ w.given ∙ ap (λ xs. Stdio.given F s ++ xs) (take_all bytes (r.1) all)
    | inr (t, none) ↦ elim (List-cases (drop (r.1) bytes)) [
      | inl nothing ↦
          let all : r.1 ≡ length bytes =
            omega (arith, w.bound, length-drop (r.1) bytes, ap length nothing) in
          w.given ∙ ap (λ xs. Stdio.given F s ++ xs) (take_all bytes (r.1) all)
      | inr (x, xs, some_left) ↦
          absurd (sound.takes (drop (r.1) bytes) t (λ e. cons_lem x xs (sym some_left ∙ e)) none)
    ]
  ]
    where
      take_all : (xs : List ℕ) (n : ℕ) → n ≡ length xs → take n xs ≡ xs
      take_all [] zero h = refl
      take_all [] (suc n) h = refl
      take_all (x ∷ xs) zero h = absurd (omega arith)
      take_all (x ∷ xs) (suc n) h = ap (λ ys. x ∷ ys) (take_all xs n (omega arith))

      cons_lem : (x : ℕ) (xs : List ℕ) → x ∷ xs ≢ []
      cons_lem x xs e = cc

  append-Adds :
      (base : List ℕ) (ls : List (List ℕ)) (l : LogFile F) (bytes : List ℕ)
      → IsSound
      → Kept base ls l
      → Returns (append F l bytes) (Adds base (ls ++ (bytes ∷ [])) l)
  unfolding append flush
  append-Adds base ls l bytes sound k =
      Returns-bind (append_file F bytes l.file) _ (Written F l.file bytes) _
        (append_file-Written F l.file bytes)
        (λ r w.
          let given : Stdio.given F (r.0) ≡ base ++ concat (ls ++ (bytes ∷ [])) =
            whole l.file bytes r sound w
            ∙ ap (λ xs. xs ++ bytes) k.given
            ∙ append_assoc base (concat ls) bytes
            ∙ ap (λ xs. base ++ xs) (sym (concat-snoc ls bytes)) in
          let same = Stdio.fflush_given F (r.0) in
          let (more, disk) = k.on_disk in
          let (new, disk') = w.on_disk in
          elim (Bool-cases (leb l.flush_every_n (l.count + 1))) [
            | inl e ↦ rw e (
              record {
                older = ls ++ (bytes ∷ []);
                recent = [];
                split = sym (append-nil (ls ++ (bytes ∷ [])));
                given = same ∙ given;
                on_disk = (
                  [],
                  Stdio.fflush_on_disk F (r.0) (sound.flushes (r.0))
                      ∙ given
                      ∙ sym (append-nil (base ++ concat (ls ++ (bytes ∷ [])))),
                );
                counted = refl;
                few = omega (arith, k.few);
              },
              refl,
            )
            | inr e ↦ rw e (
              record {
                older = k.older;
                recent = k.recent ++ (bytes ∷ []);
                split =
                    ap (λ xs. xs ++ (bytes ∷ [])) k.split
                    ∙ append_assoc k.older k.recent (bytes ∷ []);
                given = given;
                on_disk = (
                  more ++ new,
                  disk'
                      ∙ ap (λ xs. xs ++ new) disk
                      ∙ append_assoc (base ++ concat k.older) more new,
                );
                counted = omega (arith, length-append k.recent (bytes ∷ []), k.counted);
                few = ground (arith, e);
              },
              refl,
            )
          ])

  run-Adds :
      (ops : List Op) (base : List ℕ) (ls : List (List ℕ)) (l : LogFile F)
      → IsSound
      → Kept base ls l
      → Returns (run l ops) (Adds base (ls ++ lines ops) l)
  unfolding run
  run-Adds [] base ls l sound k = (subst (λ xs. Kept base xs l) (sym (append-nil ls)) k, refl)
  run-Adds (line bytes ∷ ops) base ls l sound k =
      Returns-bind (append F l bytes) _ (Adds base (ls ++ (bytes ∷ [])) l) _
        (append-Adds base ls l bytes sound k)
        (λ l' a.
          let e = append_assoc ls (bytes ∷ []) (lines ops) in
          Returns-mono (run l' ops) (Adds base ((ls ++ (bytes ∷ [])) ++ lines ops) l') _
            (run-Adds ops base (ls ++ (bytes ∷ [])) l' sound (a.0))
            (λ l'' b. (subst (λ xs. Kept base xs l'') e (b.0), b.1 ∙ a.1)))
  run-Adds (flushed ∷ ops) base ls l sound k =
      let a = flush-Adds base ls l sound k in
      Returns-mono (run (flush F l) ops) (Adds base (ls ++ lines ops) (flush F l)) _
        (run-Adds ops base ls (flush F l) sound (a.0)) (λ l'' b. (b.0, b.1 ∙ a.1))

  -- On a stream with no errors, from a new log file with a positive period on, any lines and
  -- flushes go through. Behind what it had before, the stream has been given exactly the lines, whole
  -- and in order, and all of them but the last ones, fewer than `flush_every_n`, are on disk whole.
  pub keeps_all_but_few :
      (flush_every_n : ℕ) (s : Stdio.State F) (ops : List Op)
      → IsSound
      → 0 < flush_every_n
      → Stdio.on_disk F s ≡ Stdio.given F s
      → Returns
          (run (create F flush_every_n s) ops)
          (Adds (Stdio.given F s) (lines ops) (create F flush_every_n s))
  unfolding create
  keeps_all_but_few flush_every_n s ops sound positive fresh =
      run-Adds ops (Stdio.given F s) [] _ sound (record {
        older = [];
        recent = [];
        split = refl;
        given = sym (append-nil (Stdio.given F s));
        on_disk = (
          [],
          fresh ∙ sym (append-nil (Stdio.given F s)) ∙ sym (append-nil (Stdio.given F s ++ [])),
        );
        counted = refl;
        few = positive;
      })
