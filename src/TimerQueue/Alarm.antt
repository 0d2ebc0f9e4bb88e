-- ===== src/TimerQueue/Alarm.antt =====
-- The alarm that `addTimer` sets (irono/net/TimerQueue.cc).
use irono.Base.{
  ℕ, ◌-◌, ◌*◌, ◌≤◌, ◌<◌, ◌≡◌, Bool, true, false, ◌||◌, max, some, List, [], ◌∷◌, arith, Bool-cases,
  inl, inr, ap, ◌∙◌, refl,
}
use irono.TimerQueue.SortedSet.{Key, mem, key_eq, IsSorted, Above, mem-insert}
use irono.TimerQueue.{TimerQueue, is_earliest}
use irono.TimerQueue.Inv.{Inv, key}
use irono.TimerQueue.Add.{
  earliest, added, added-timers, added-armed_anew, added-armed_still, armed_at_lem,
}

-- The alarm is set, for a time not later than each timer of the queue.
abbrev pub IsArmed : TimerQueue → Type 0
IsArmed q =
    (time ptr : ℕ)
    → mem (key time ptr) q.timers ≡ true
    → (alarm : ℕ × ℕ) × (q.armed ≡ some alarm) × (alarm.0 ≤ time)

first_le : (k x : Key) (xs : List Key) → Above x xs → mem k xs ≡ true → x.first ≤ k.first
unfolding mem
first_le k x [] a h = cc
first_le k x (y ∷ ys) (l, a) h = elim (Bool-cases (key_eq k y)) [
  | inl e ↦ ground arith
  | inr e ↦ first_le k x ys a (ground arith)
]

earliest_lt :
    (when : ℕ) (k : Key) (xs : List Key)
    → IsSorted xs
    → is_earliest when xs ≡ true
    → mem k xs ≡ true
    → when < k.first
unfolding mem is_earliest
earliest_lt when k [] s e h = cc
earliest_lt when k (x ∷ xs) (a, s) e h = elim (Bool-cases (key_eq k x)) [
  | inl same ↦ ground arith
  | inr differs ↦ ground (arith, first_le k x xs a (ground arith))
]

lt_earliest :
    (when : ℕ) (xs : List Key)
    → ((time ptr : ℕ) → mem (key time ptr) xs ≡ true → when < time)
    → is_earliest when xs ≡ true
unfolding mem is_earliest
lt_earliest when [] h = refl
lt_earliest when (x ∷ xs) h = ground (arith, h x.first x.second (ground arith))

-- If the timer is not the earliest, some timer is not later.
not_earliest :
    (when : ℕ) (xs : List Key)
    → is_earliest when xs ≡ false
    → (k : Key) × (mem k xs ≡ true) × (k.first ≤ when)
unfolding mem is_earliest
not_earliest when [] e = cc
not_earliest when (x ∷ xs) e = (x, ground arith, ground arith)

module _ (settime : ℕ × ℕ → Bool) (q : TimerQueue) (ptr callback when delta : ℕ) (repeat : Bool)
    (now : ℕ) where
  abbrev after : TimerQueue
  after = (added settime q ptr callback when delta repeat now).0

  anew :
      earliest settime q ptr callback when delta repeat now ≡ true
      → after.armed ≡ some (when, max 100 (when - now) * 1000)
  anew e = added-armed_anew settime q ptr callback when delta repeat now e ∙ armed_at_lem _ when now

  pub added-first :
      ((time other : ℕ) → mem (key time other) q.timers ≡ true → when < time)
      → after.armed ≡ some (when, max 100 (when - now) * 1000)
  added-first h = anew (lt_earliest when q.timers h)

  member :
      (time other : ℕ)
      → mem (key time other) after.timers
        ≡ (key_eq (key time other) (key when ptr) || mem (key time other) q.timers)
  member time other =
      ap (mem (key time other)) (added-timers settime q ptr callback when delta repeat now)
      ∙ mem-insert (key time other) (key when ptr) q.timers

  pub added-IsArmed : Inv q → IsArmed q → IsArmed after
  added-IsArmed v armed time other h =
      elim (Bool-cases (earliest settime q ptr callback when delta repeat now)) [
        | inl e ↦ (
          (when, max 100 (when - now) * 1000),
          anew e,
          elim (Bool-cases (key_eq (key time other) (key when ptr))) [
            | inl same ↦ ground arith
            | inr differs ↦ ground (
              arith,
              earliest_lt when (key time other) q.timers v.timers_sorted e
                  (ground (arith, member time other)),
            )
          ],
        )
        | inr e ↦
            let still = added-armed_still settime q ptr callback when delta repeat now e in
            elim (Bool-cases (key_eq (key time other) (key when ptr))) [
              | inl same ↦
                  let (k, there, le) = not_earliest when q.timers e in
                  let (alarm, at, first) = armed k.first k.second there in
                  (alarm, still ∙ at, ground arith)
              | inr differs ↦
                  let (alarm, at, first) = armed time other (ground (arith, member time other)) in
                  (alarm, still ∙ at, first)
            ]
      ]
