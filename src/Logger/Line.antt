-- ===== src/Logger/Line.antt =====
-- What a statement logs (irono/base/Logging.cc).
use irono.Base.{
  ℕ, ◌<◌, ◌^◌, ◌≡◌, ◌≢◌, inl, inr, true, false, Option, none, some, List, [], ◌∷◌, ◌++◌, length,
  if◌then◌else◌, ◌>>◌, arith, ℤ, Returns, Returns-bind, Returns-some, subst, Option-cases,
}
use irono.LogStream.{Item, put, small_buffer, avail}
use irono.LogStream.Digits.{magnitude}
use irono.LogStream.Room.{InRange, Renders, needed, Puts, put-Puts}
use irono.Logger.{
  LogLevel, trace, debug, info, error, fatal, log_level_name, is_fatal, Logging, deliver, put_all,
  header, trailer, begin_line, end_line, Ending, goes_on, aborts, flush_async, log,
}

-- `b'` is `b` with the texts of the items behind it, each whole, or left out if its room is not left.
pub data Parts : List ℕ → List Item → List ℕ → Type 0 where
  ends : (b : List ℕ) → Parts b [] b
  shows :
      (b b' t : List ℕ) (item : Item) (items : List Item)
      → Renders item t
      → Parts (b ++ t) items b'
      → Parts b (item ∷ items) b'
  omits :
      (b b' : List ℕ) (item : Item) (items : List Item)
      → avail b < needed item
      → Parts b items b'
      → Parts b (item ∷ items) b'

abbrev pub AllInRange : List Item → Type 0
AllInRange [] = Unit {0}
AllInRange (item ∷ items) = InRange item × AllInRange items

-- The whole of a line.
abbrev Filled : List ℕ → List Item → List ℕ → Type 0
Filled b items b' = Parts b items b' × (length b' < small_buffer)

put_all-Filled :
    (b : List ℕ) (items : List Item)
    → length b < small_buffer
    → AllInRange items
    → Returns (put_all b items) (Filled b items)
unfolding put_all
put_all-Filled b [] h r = (ends b, h)
put_all-Filled b (item ∷ items) h (r, rs) =
    Returns-bind (put b item) _ (Puts b item) (Filled b (item ∷ items)) (put-Puts b item h r)
      (λ b' (short, how).
        let (b'', e, (parts, fits)) =
          Returns-some (put_all b' items) (Filled b' items) (put_all-Filled b' items short rs) in
        rw e (elim how [
          | inl (same, full) ↦
              (omits b b'' item items full (subst (λ c. Parts c items b'') same parts), fits)
          | inr (t, added, is) ↦
              (shows b b'' t item items is (subst (λ c. Parts c items b'') added parts), fits)
        ]))

Parts-append :
    {b b' b'' : List ℕ} (xs ys : List Item)
    → Parts b xs b'
    → Parts b' ys b''
    → Parts b (xs ++ ys) b''
Parts-append [] ys (ends b) q = q
Parts-append (item ∷ xs) ys (shows b b' t _ _ is p) q =
    shows b _ t item (xs ++ ys) is (Parts-append xs ys p q)
Parts-append (item ∷ xs) ys (omits b b' _ _ full p) q =
    omits b _ item (xs ++ ys) full (Parts-append xs ys p q)

-- The program goes on, unless the level is fatal: then it aborts, if there is a log to flush.
abbrev pub Ends : LogLevel → Logging → Option Ending → Type 0
Ends level l r =
    (is_fatal level ≡ false → r ≡ some (goes_on l))
    × (is_fatal level ≡ true → l.async ≢ none → r ≡ some (aborts l))
    × (is_fatal level ≡ true → l.async ≡ none → r ≡ none)

ending :
    (level : LogLevel) (l : Logging)
    → Ends level l
        (if is_fatal level then flush_async l.async >> some (aborts l) else some (goes_on l))
ending level l = elim (Option-cases l.async) [
  | inl null ↦ ground (arith, null)
  | inr (a, there) ↦ ground (arith, there)
]

written :
    (l : Logging) (time tid filename : List ℕ) (line : ℤ) (level : LogLevel) (items : List Item)
    (b b' b'' : List ℕ)
    → put_all [] (header time tid level) ≡ some b
    → put_all b items ≡ some b'
    → put_all b' (trailer filename line) ≡ some b''
    → Ends level (deliver l l.output b'') (log l time tid filename line level items)
unfolding log begin_line end_line
written l time tid filename line level items b b' b'' e e' e'' =
    rw (e, e', e'') (ending level (deliver l l.output b''))

name_small : (level : LogLevel) → length (log_level_name level) < 2 ^ 31
unfolding log_level_name
name_small trace = omega arith
name_small debug = omega arith
name_small info = omega arith
name_small error = omega arith
name_small fatal = omega arith

-- A statement that puts texts of fewer than 2^31 bytes, integers of at most 64 bits, addresses and short
-- texts of a `double` into its stream, with the time, the thread, the file and the line number in the
-- same bounds, gives `g_output` one line of fewer than 4000 bytes:
-- the time, the level, the thread, a blank, the items in order, and then the file, the line number
-- and the end of the line, of which each part is whole, or left out if the room for it was not left.
-- Then the program goes on. At the level FATAL it aborts; but when there is no `AsyncLogger_`, as
-- nothing was ever logged through it, it uses a null pointer.
pub log_lem :
    (l : Logging) (time tid filename : List ℕ) (line : ℤ) (level : LogLevel) (items : List Item)
    → length time < 2 ^ 31
    → length tid < 2 ^ 31
    → length filename < 2 ^ 31
    → magnitude line < 10 ^ 20
    → AllInRange items
    → (msg : List ℕ) × Parts [] (header time tid level ++ (items ++ trailer filename line)) msg
      × (length msg < small_buffer)
      × Ends level (deliver l l.output msg) (log l time tid filename line level items)
log_lem l time tid filename line level items h0 h1 h2 small r =
    let head = header time tid level in
    let tail = trailer filename line in
    let (b, e, (p, h)) =
      Returns-some (put_all [] head) (Filled [] head)
        (put_all-Filled [] head (omega arith) (h0, (name_small level, (h1, (omega arith, tt))))) in
    let (b', e', (p', h')) =
      Returns-some (put_all b items) (Filled b items) (put_all-Filled b items h r) in
    let (b'', e'', (p'', h'')) =
      Returns-some (put_all b' tail) (Filled b' tail) (
        put_all-Filled b' tail h' (omega arith, (h2, (omega arith, (small, (omega arith, tt)))))) in
    (
      b'',
      Parts-append head (items ++ tail) p (Parts-append items tail p' p''),
      h'',
      written l time tid filename line level items b b' b'' e e' e'',
    )
