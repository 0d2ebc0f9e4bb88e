-- ===== src/AsyncLogging/Order.antt =====
-- What reaches the log file, and in which order (irono/base/AsyncLogging.cc).
use irono.Base.{
  ℕ, ◌≤◌, ◌≡◌, refl, ap, ◌∙◌, none, some, List, [], ◌∷◌, ◌++◌, length, arith, ◌>>=◌, Returns,
  Returns-bind, Returns-mono, append_assoc, subst,
}
use irono.AsyncLogging.{AsyncLogging, Buffer, append, exchange, write_out, concat, kept, create}
use irono.AsyncLogging.Exchange.{
  Inv, stream, logged, being_written, create-Inv, append-Inv, append-stream, Exchanged, Written,
  exchange_lem, write_out_lem,
}

-- The lines appended while the back end is busy.
unfoldable pub append_all : AsyncLogging → List (List ℕ) → AsyncLogging
append_all a [] = a
append_all a (line ∷ lines) = append_all (append a line) lines

-- `append` leaves the back end's part alone.
append_same :
    (a : AsyncLogging) (line : List ℕ)
    → ((append a line).writing ≡ a.writing) × ((append a line).output ≡ a.output)
unfolding append
append_same a line = ground arith

append_all_lem :
    (a : AsyncLogging) (lines : List (List ℕ))
    → Inv a
    → Inv (append_all a lines)
      × ((append_all a lines).writing ≡ a.writing)
      × ((append_all a lines).output ≡ a.output)
unfolding append_all
append_all_lem a [] v = (v, refl, refl)
append_all_lem a (line ∷ lines) v =
    let (w, e, o) = append_all_lem (append a line) lines (append-Inv a line v) in
    let (e', o') = append_same a line in (w, e ∙ e', o ∙ o')

-- A round of the back end ends, is ready for the next one, and has written the buffers it collected.
abbrev pub RoundDone : AsyncLogging → AsyncLogging → Type 0
RoundDone a r =
    Inv r
    × (r.writing ≡ none)
    × (r.output ≡ a.output ++ concat (kept (a.buffers ++ (a.current ∷ []))))

-- From a state with the invariant, between two rounds: a round of the logging thread, with any
-- lines appended by other threads while it writes, passes every assertion, and its two spare
-- buffers are there again. It has written all collected buffers in order, or the first two if there
-- were more than 25.
pub round-RoundDone :
    (a : AsyncLogging) (lines : List (List ℕ))
    → Inv a
    → a.writing ≡ none
    → Returns (exchange a >>= λ a'. write_out (append_all a' lines)) (RoundDone a)
round-RoundDone a lines v h =
    Returns-bind (exchange a) (λ a'. write_out (append_all a' lines)) _ (RoundDone a)
      (exchange_lem a v h)
      (λ a' (v', _, same, is).
        let (w, e, o) = append_all_lem a' lines v' in
        Returns-mono (write_out (append_all a' lines)) _ (RoundDone a)
          (write_out_lem (append_all a' lines) (a.buffers ++ (a.current ∷ [])) w (e ∙ is))
          (λ r (inv, done, out, _, _). (
            inv,
            done,
            out ∙ ap (λ xs. xs ++ concat (kept (a.buffers ++ (a.current ∷ [])))) (o ∙ same),
          )))

-- `Run logged a`: steps that lead to `a`, in which the bytes `logged` were appended and no more than 25
-- buffers were written at once.
pub data Run : List ℕ → AsyncLogging → Type 0 where
  start : Run [] create
  appends :
      {xs : List ℕ} {a : AsyncLogging} (line : List ℕ)
      → Run xs a
      → Run (xs ++ logged line) (append a line)
  exchanges :
      {xs : List ℕ} {a a' : AsyncLogging}
      → Run xs a
      → a.writing ≡ none
      → exchange a ≡ some a'
      → Run xs a'
  writes :
      {xs : List ℕ} {a a' : AsyncLogging} (bs : List Buffer)
      → Run xs a
      → a.writing ≡ some bs
      → length bs ≤ 25
      → write_out a ≡ some a'
      → Run xs a'

exchanged :
    (a a' : AsyncLogging)
    → Inv a
    → a.writing ≡ none
    → exchange a ≡ some a'
    → Inv a' × (stream a' ≡ stream a)
exchanged a a' v h e =
    let (w, s, _, _) = subst (λ r. Returns r (Exchanged a)) e (exchange_lem a v h) in (w, s)

written :
    (a a' : AsyncLogging) (bs : List Buffer)
    → Inv a
    → a.writing ≡ some bs
    → length bs ≤ 25
    → write_out a ≡ some a'
    → Inv a' × (stream a' ≡ stream a)
written a a' bs v h few e =
    let (w, done, out, same, cur) =
      subst (λ r. Returns r (Written a bs)) e (write_out_lem a bs v h) in
    let all : kept bs ≡ bs = ground arith in
    (
      w,
      rw (done, out, same, cur, h, all)
          (append_assoc a.output (concat bs) (concat a.buffers ++ a.current)),
    )

Run_lem : {xs : List ℕ} {a : AsyncLogging} → Run xs a → Inv a × (stream a ≡ xs)
unfolding create
Run_lem start = (create-Inv, refl)
Run_lem (appends {a = a} line r) =
    let (v, e) = Run_lem r in
    (append-Inv a line v, append-stream a line v ∙ ap (λ xs. xs ++ logged line) e)
Run_lem (exchanges {a = a} {a' = a'} r h e) =
    let (v, s) = Run_lem r in let (v', s') = exchanged a a' v h e in (v', s' ∙ s)
Run_lem (writes {a = a} {a' = a'} bs r h few e) =
    let (v, s) = Run_lem r in let (v', s') = written a a' bs v h few e in (v', s' ∙ s)

-- In any interleaving of appends with rounds of the logging thread that never has more than 25
-- buffers to write: the log file, the buffers being written, those waiting and the current one
-- hold, in this order, exactly the lines appended so far, without those as long as a whole buffer.
pub logged_in_order :
    {xs : List ℕ} {a : AsyncLogging}
    → Run xs a
    → a.output ++ (concat (being_written a.writing) ++ (concat a.buffers ++ a.current)) ≡ xs
logged_in_order r = (Run_lem r).1
