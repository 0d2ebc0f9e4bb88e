-- ===== src/Buffer/Tests.antt =====
-- Buffers of twelve bytes (irono/net/Buffer.h and Buffer.cc).
use irono.Base.{
  Option, none, ℕ, ◌<◌, ◌≡◌, refl, List, [], ◌∷◌, ◌++◌, length, arith, some, replicate,
}
use irono.Buffer.{
  make_space, move_to_front, Buffer, append, retrieve, retrieve_until, retrieve_as_string, shrink,
  create, ensure_writable_bytes, has_written,
}
use irono.Buffer.Inv.{IsValid, content}
use irono.Buffer.Refine.{
  Op, appends, retrieves_to, takes_all, step, spec, run, run_spec, RunFits, done, next, next_at,
  Agrees, run-Agrees,
}
use irono.Buffer.Shrink.{shrink_invalid}

abbrev bytes : List ℕ
bytes = 7 ∷ 8 ∷ 9 ∷ []

-- Two bytes, 5 and 6, behind the cheap prepend space, and room for two more.
abbrev two_bytes : Buffer
two_bytes = record {
  buffer = replicate 8 0 ++ (5 ∷ 6 ∷ 0 ∷ 0 ∷ []);
  reader_index = 8;
  writer_index = 10;
}

-- The same after three bytes more have come and gone.
abbrev late : Buffer
late = record { buffer = replicate 11 0 ++ (5 ∷ []); reader_index = 11; writer_index = 12 }

two_bytes-IsValid : IsValid two_bytes
two_bytes-IsValid = omega arith

late-IsValid : IsValid late
late-IsValid = omega arith

abbrev result : Option (Buffer × List ℕ) → Buffer × List ℕ
result none = (two_bytes, [])
result (some r) = r

abbrev calls : List Op
calls = appends bytes ∷ retrieves_to 2 ∷ takes_all ∷ []

abbrev grown : Buffer × List ℕ
grown = result (step two_bytes (appends bytes))

abbrev shorter : Buffer × List ℕ
shorter = result (step (grown.0) (retrieves_to 2))

calls_fit : RunFits two_bytes calls
unfolding step append ensure_writable_bytes has_written make_space move_to_front retrieve_until
    retrieve retrieve_as_string
calls_fit = next_at two_bytes (appends bytes) _ grown (omega arith) refl (
    next_at (grown.0) (retrieves_to 2) _ shorter (omega arith) refl
      (next takes_all [] tt (λ r e. done)))

run-Agrees_example : Agrees (run two_bytes calls) (run_spec (content two_bytes) calls)
run-Agrees_example = run-Agrees two_bytes calls two_bytes-IsValid calls_fit

calls_spec : run_spec (5 ∷ 6 ∷ []) calls ≡ some ([], bytes)
unfolding run_spec spec
calls_spec = refl

shrink_invalid_example : length (shrink late 0).buffer < (shrink late 0).writer_index
shrink_invalid_example = shrink_invalid late 0 late-IsValid (omega arith) (omega arith)

-- A fresh buffer takes three bytes and gives them back.
appended_bytes :
    append create bytes
    ≡ some
        (record create { buffer = replicate 8 0 ++ bytes ++ replicate 1021 0; writer_index = 11 })
unfolding append create ensure_writable_bytes has_written
appended_bytes = refl
