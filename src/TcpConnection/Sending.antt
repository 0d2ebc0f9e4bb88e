-- ===== src/TcpConnection/Sending.antt =====
-- `send`: a message goes to the socket, to the output buffer, or to both in order
-- (irono/net/TcpConnection.cc).
use irono.Base.{
  ℕ, ◌+◌, ◌<◌, ◌≤◌, ◌≡◌, if◌then◌else◌, true, not, ◌&&◌, List, [], ◌++◌, length, arith, refl, sym,
  ap, ◌∙◌, take, drop, take-append-drop, length-drop, append_assoc, length-append, drop-all,
  append-nil, Returns, Returns-bind, Bool-cases, inl, inr, ltb, ◌==◌,
}
use irono.Buffer.{readable_bytes, append}
use irono.Buffer.Inv.{content, length-content, max_size}
use irono.Buffer.Append.{append_lem, Appended}
use irono.Channel.{change_events}
use irono.TcpConnection.{
  Connection, connected, is_connected, is_writing, Write, written, write_direct, keep_rest,
  send_in_loop, send,
}
use irono.TcpConnection.Inv.{State-cases, Inv, stream}

-- What sending leaves alone or does, whatever way it takes.
pub record Sends (c : Connection) (message : List ℕ) (c' : Connection) : Type 0 where
  pub inv : Inv c'
  pub all : stream c' ≡ stream c ++ message
  pub same_state : c'.state ≡ c.state
  pub same_shut : c'.write_shut ≡ c.write_shut

write_direct_lem :
    (c : Connection) (message : List ℕ) (w : Write)
    → let c' = write_direct c message w in
      (c'.output ≡ c.output)
      × (c'.input ≡ c.input)
      × (c'.events ≡ c.events)
      × (c'.state ≡ c.state)
      × (c'.write_shut ≡ c.write_shut)
      × (c'.sent ≡ c.sent ++ take (written w) message)
unfolding write_direct
write_direct_lem c message w = ground arith

-- `c` has passed on all of the message but `rest`.
keep_rest_lem :
    (c c' : Connection) (message : List ℕ) (n : ℕ)
    → Inv c
    → c.state ≡ connected
    → c.output.writer_index + length message < max_size
    → c'.output ≡ c.output
    → c'.input ≡ c.input
    → c'.events ≡ c.events
    → c'.state ≡ c.state
    → c'.write_shut ≡ c.write_shut
    → n ≤ length message
    → c'.sent ++ (content c.output ++ drop n message) ≡ stream c ++ message
    → Returns (keep_rest c' message n) (Sends c message)
unfolding keep_rest change_events
keep_rest_lem c c' message n v up room eo ei ee es eh h e =
    elim (Bool-cases (ltb n (length message))) [
      | inl more ↦
          rw (more, eo)
            (Returns-bind (append c.output (drop n message)) _ (Appended c.output (drop n message))
              (Sends c message)
              (append_lem c.output (drop n message) v.output_valid
                (omega (arith, length-drop n message)))
              (λ output a. ground (
                arith,
                length-append (content c.output) (drop n message),
                length-drop n message,
                e,
              )))
      | inr done ↦ rw done (
          ground (
            arith,
            drop-all n message,
            append-nil (content c.output),
            append-nil (content c'.output),
          ))
    ]

-- What `write` can have taken of `message`.
abbrev pub Fits : Write → List ℕ → Type 0
Fits w message = written w ≤ length message

empty_of_readable :
    (c : Connection) → Inv c → (readable_bytes c.output == 0) ≡ true → content c.output ≡ []
empty_of_readable c v h = ground (arith, length-content c.output v.output_valid)

parts : (xs m : List ℕ) (n : ℕ) → (xs ++ take n m) ++ drop n m ≡ xs ++ m
parts xs m n = append_assoc xs (take n m) (drop n m) ∙ ap (◌++◌ xs) (take-append-drop n m)

send_in_loop-Sends :
    (c : Connection) (message : List ℕ) (w : Write)
    → Inv c
    → c.state ≡ connected
    → c.output.writer_index + length message < max_size
    → Fits w message
    → Returns (send_in_loop c message w) (Sends c message)
unfolding send_in_loop
send_in_loop-Sends c message w v up room fits =
    elim (Bool-cases (not (is_writing c) && readable_bytes c.output == 0)) [
      | inl direct ↦
          let (eo, ei, ee, es, eh, et) = write_direct_lem c message w in
          let empty = empty_of_readable c v (ground arith) in
          rw direct (
            keep_rest_lem c (write_direct c message w) message (written w) v up room eo ei ee es eh
              fits
              (rw (empty, et)
                (parts c.sent message (written w)
                  ∙ ap (λ xs. xs ++ message) (sym (append-nil c.sent)))))
      | inr queued ↦ rw queued (
          keep_rest_lem c c message 0 v up room refl refl refl refl refl (omega arith)
            (sym (append_assoc c.sent (content c.output) message)))
    ]

-- What a call of `send` takes on: nothing unless the connection is up.
abbrev pub taken_on : Connection → List ℕ → List ℕ
taken_on c message = if is_connected c.state then message else []

-- `send` in the loop's thread always comes back. On a connection that is up, the message ends up
-- behind all that was sent before, however much of it `write` takes at once; otherwise it is ignored.
pub send-Sends :
    (c : Connection) (message : List ℕ) (w : Write)
    → Inv c
    → c.output.writer_index + length message < max_size
    → Fits w message
    → Returns (send c message w) (Sends c (taken_on c message))
unfolding send
send-Sends c message w v room fits = elim (State-cases c.state) [
  | inl (test, up) ↦ rw test (send_in_loop-Sends c message w v up room fits)
  | inr down ↦
      rw down
        (record { inv = v; all = sym (append-nil (stream c)); same_state = refl; same_shut = refl })
]
