-- ===== src/AsyncLogging/Exchange.antt =====
-- The buffers go round between the threads, and no assertion fails (irono/base/AsyncLogging.cc).
use irono.Base.{
  ℕ, ◌+◌, ◌-◌, ◌<◌, ◌≡◌, ◌⊎◌, inl, inr, refl, sym, ap, ◌∙◌, true, Option, none, some, List, [], ◌∷◌,
  ◌++◌, length, ltb, arith, if◌then◌else◌, append_assoc, append-nil, length-append, length-take,
  Bool-cases, Returns,
}
use irono.AsyncLogging.{
  AsyncLogging, Buffer, large_buffer, avail, append_line, or_new, append, is_empty, exchange,
  concat, kept, resized, refill, write_out, create,
}

-- Between two steps: the spare buffers are there unless buffers are being written; the back end has
-- lent out one or two of its buffers only for as many that it will get back; the front end has its
-- next buffer unless one was filled since the last exchange.
pub record Inv (a : AsyncLogging) : Type 0 where
  pub idle : a.writing ≡ none → (is_empty a.new_buffer1 ≡ true) × (is_empty a.new_buffer2 ≡ true)
  pub busy :
      (bs : List Buffer)
      → a.writing ≡ some bs
      → (0 < length bs)
        × (a.new_buffer1 ≡ none)
        × ((is_empty a.new_buffer2 ≡ true) ⊎ ((a.new_buffer2 ≡ none) × (1 < length bs)))
  pub spare : (a.next ≡ some []) ⊎ ((a.next ≡ none) × (0 < length a.buffers))

abbrev pub being_written : Option (List Buffer) → List Buffer
being_written none = []
being_written (some bs) = bs

-- All bytes from the log file on to the front end's buffer, in order.
abbrev pub stream : AsyncLogging → List ℕ
stream a = a.output ++ (concat (being_written a.writing) ++ (concat a.buffers ++ a.current))

pub create-Inv : Inv create
unfolding create
create-Inv = record { idle = λ _. (refl, refl); busy = λ bs h. cc; spare = inl refl }

pub concat-append : (xs ys : List Buffer) → concat (xs ++ ys) ≡ concat xs ++ concat ys
concat-append [] ys = refl
concat-append (x ∷ xs) ys =
    ap (◌++◌ x) (concat-append xs ys) ∙ sym (append_assoc x (concat xs) (concat ys))

pub append-Inv : (a : AsyncLogging) (line : List ℕ) → Inv a → Inv (append a line)
unfolding append
append-Inv a line v = elim (Bool-cases (ltb (length line) (avail a.current))) [
  | inl fits ↦ rw fits (record { idle = v.idle; busy = v.busy; spare = v.spare })
  | inr full ↦ rw full (record {
    idle = v.idle;
    busy = v.busy;
    spare = inr (refl, omega (arith, length-append a.buffers (a.current ∷ [])));
  })
]

-- What a line adds to the log: nothing if it is as long as a whole buffer.
abbrev pub logged : List ℕ → List ℕ
logged line = if ltb (length line) large_buffer then line else []

regroup : (o w b c l : List ℕ) → o ++ (w ++ (b ++ (c ++ l))) ≡ (o ++ (w ++ (b ++ c))) ++ l
regroup o w b c l = simp append_assoc

behind : (b c l : List ℕ) → (b ++ (c ++ [])) ++ l ≡ b ++ (c ++ l)
behind b c l = simp (append_assoc, append-nil)

pub some-of_empty : (x : Option Buffer) → is_empty x ≡ true → x ≡ some []
some-of_empty none h = cc
some-of_empty (some []) h = refl
some-of_empty (some (x ∷ xs)) h = cc

or_new-nil : (a : AsyncLogging) → Inv a → or_new a.next ≡ []
or_new-nil a v = elim v.spare [ inl e ↦ ap or_new e | inr e ↦ ap or_new e.0 ]

pub append-stream :
    (a : AsyncLogging) (line : List ℕ) → Inv a → stream (append a line) ≡ stream a ++ logged line
unfolding append append_line
append-stream a line v =
    let w = concat (being_written a.writing) in
    elim (Bool-cases (ltb (length line) (avail a.current))) [
      | inl fits ↦
          let l : ltb (length line) large_buffer ≡ true = ground arith in
          rw (fits, l) (regroup a.output w (concat a.buffers) a.current line)
      | inr full ↦
          rw (full, or_new-nil a v, concat-append a.buffers (a.current ∷ []))
            (ap (λ xs. a.output ++ (w ++ xs)) (behind (concat a.buffers) a.current (logged line))
              ∙ regroup a.output w (concat a.buffers) a.current (logged line))
    ]

-- After the exchange the collected buffers are being written.
abbrev pub Exchanged : AsyncLogging → AsyncLogging → Type 0
Exchanged a a' =
    Inv a'
    × (stream a' ≡ stream a)
    × (a'.output ≡ a.output)
    × (a'.writing ≡ some (a.buffers ++ (a.current ∷ [])))

-- After the writing the kept ones of the buffers `bs` are in the log file.
abbrev pub Written : AsyncLogging → List Buffer → AsyncLogging → Type 0
Written a bs a' =
    Inv a'
    × (a'.writing ≡ none)
    × (a'.output ≡ a.output ++ concat (kept bs))
    × (a'.buffers ≡ a.buffers)
    × (a'.current ≡ a.current)

pub exchange_lem :
    (a : AsyncLogging) → Inv a → a.writing ≡ none → Returns (exchange a) (Exchanged a)
unfolding exchange
exchange_lem a v h =
    let one = some-of_empty a.new_buffer1 (v.idle h).0 in
    let two = some-of_empty a.new_buffer2 (v.idle h).1 in
    let count : (bs : List Buffer)
        → some (a.buffers ++ (a.current ∷ [])) ≡ some bs
        → length bs ≡ length a.buffers + 1 =
      λ bs e. ground (arith, length-append a.buffers (a.current ∷ [])) in
    rw (one, two, h)
      (
        record {
          idle = λ e. cc;
          busy = λ bs e. (
            omega (arith, count bs e),
            refl,
            elim v.spare [
              | inl full ↦ rw full (inl refl)
              | inr (lent, more) ↦ rw lent (inr (refl, omega (arith, count bs e)))
            ],
          );
          spare = elim v.spare [ inl full ↦ rw full (inl refl) | inr lent ↦ rw lent.0 (inl refl) ];
        },
        rw (concat-append a.buffers (a.current ∷ [])) (simp (append_assoc, append-nil)),
        refl,
        refl,
      )

some_kept : (bs : List Buffer) → 0 < length bs → 0 < length (resized (kept bs))
some_kept bs h = ground (arith, length-take 2 bs, length-take 2 (kept bs))

two_kept : (bs : List Buffer) → 1 < length bs → 1 < length (resized (kept bs))
two_kept bs h = ground (arith, length-take 2 bs, length-take 2 (kept bs))

pub write_out_lem :
    (a : AsyncLogging) (bs : List Buffer)
    → Inv a
    → a.writing ≡ some bs
    → Returns (write_out a) (Written a bs)
unfolding write_out refill
write_out_lem a bs v h =
    let (some_left, one, two) = v.busy bs h in
    let left : 0 < length (resized (kept bs)) = some_kept bs some_left in
    let positive : ltb 0 (length bs) ≡ true = ground arith in
    let more : ltb 0 (length (resized (kept bs))) ≡ true = ground arith in
    rw (h, one, positive, more)
      (elim two [
        | inl here ↦ rw (some-of_empty a.new_buffer2 here) (
          record { idle = λ _. (refl, refl); busy = λ bs e. cc; spare = v.spare },
          refl,
          refl,
          refl,
          refl,
        )
        | inr (gone, many) ↦
            let again : ltb 0 (length (resized (kept bs)) - 1) ≡ true =
              ground (arith, two_kept bs many) in
            rw (gone, again)
              (
                record { idle = λ _. (refl, refl); busy = λ bs e. cc; spare = v.spare },
                refl,
                refl,
                refl,
                refl,
              )
      ])
