-- ===== src/CountDownLatch/Gate.antt =====
-- When the latch lets threads through (irono/base/CountDownLatch.cc).
use irono.Base.{ℕ, zero, suc, ◌<◌, ◌≤◌, ◌≡◌, refl, ap, ◌∙◌, ltb, true, false, arith, ℤ, pos, negsuc}
use irono.ThreadPool.Schedule.{stir}
use irono.CountDownLatch.{
  CountDownLatch, create, is_positive, one_less, wait_once, wait_again, count_down,
}

-- A thread may also wake up with no notification.
pub data Step (l : CountDownLatch) : CountDownLatch → Type 0 where
  waits : Step l (wait_once l)
  waits_again : 0 < l.condition.woken → Step l (wait_again l)
  counts : Step l (count_down l)
  stirs : 0 < l.condition.sleeping → Step l (record l { condition = stir l.condition })

pub data Reach (n : ℕ) : CountDownLatch → Type 0 where
  here : Reach n (create (pos n))
  next : {l l' : CountDownLatch} → Reach n l → Step l l' → Reach n l'

-- The count after so many calls.
abbrev pub counted_from : ℕ → ℕ → ℤ
counted_from zero zero = pos zero
counted_from zero (suc k) = negsuc k
counted_from (suc n) zero = pos (suc n)
counted_from (suc n) (suc k) = counted_from n k

pub record Inv (n : ℕ) (l : CountDownLatch) : Type 0 where
  pub count : l.count ≡ counted_from n l.counted
  pub open_gate : is_positive l.count ≡ false → l.condition.sleeping ≡ 0
  pub shut_gate : is_positive l.count ≡ true → l.passed ≡ 0

counted_zero : (n : ℕ) → pos n ≡ counted_from n zero
counted_zero zero = refl
counted_zero (suc n) = refl

one_less-counted : (n k : ℕ) → one_less (counted_from n k) ≡ counted_from n (suc k)
one_less-counted zero zero = refl
one_less-counted zero (suc k) = refl
one_less-counted (suc n) zero = counted_zero n
one_less-counted (suc n) (suc k) = one_less-counted n k

pub is_positive-counted : (n k : ℕ) → is_positive (counted_from n k) ≡ ltb k n
is_positive-counted zero zero = ground arith
is_positive-counted zero (suc k) = ground arith
is_positive-counted (suc n) zero = ground arith
is_positive-counted (suc n) (suc k) = ground (arith, is_positive-counted n k)

pub Step-Inv : {n : ℕ} {l l' : CountDownLatch} → Step l l' → Inv n l → Inv n l'
unfolding wait_once wait_again count_down
Step-Inv {n = n} {l = l} waits v = record {
  count = ground (arith, v.count);
  open_gate = λ e. ground (arith, v.open_gate);
  shut_gate = λ e. ground (arith, v.shut_gate);
}
Step-Inv {n = n} {l = l} (waits_again h) v = record {
  count = ground (arith, v.count);
  open_gate = λ e. ground (arith, v.open_gate);
  shut_gate = λ e. ground (arith, v.shut_gate);
}
Step-Inv {n = n} {l = l} counts v = record {
  count = ground (arith, v.count, one_less-counted n l.counted);
  open_gate = λ e. ground (arith, v.open_gate);
  shut_gate = λ e. ground (arith, v.shut_gate);
}
Step-Inv {n = n} {l = l} (stirs h) v = record {
  count = v.count;
  open_gate = λ e. ground (arith, v.open_gate e);
  shut_gate = v.shut_gate;
}

pub Reach-Inv : {n : ℕ} {l : CountDownLatch} → Reach n l → Inv n l
unfolding create
Reach-Inv {n = n} here = record {
  count = counted_zero n;
  open_gate = λ e. refl;
  shut_gate = λ e. refl;
}
Reach-Inv (next r s) = Step-Inv s (Reach-Inv r)

-- In every schedule, with spurious wake-ups: `wait` has returned for a thread only if `countDown` was
-- called at least `n` times, and once it was, no thread sleeps in `wait`.
pub passes_when_counted :
    (n : ℕ) (l : CountDownLatch)
    → Reach n l
    → (0 < l.passed → n ≤ l.counted) × (n ≤ l.counted → l.condition.sleeping ≡ 0)
passes_when_counted n l r =
    let v = Reach-Inv r in
    let test : is_positive l.count ≡ ltb l.counted n =
      ap is_positive v.count ∙ is_positive-counted n l.counted in
    (λ some_passed. ground (arith, test, v.shut_gate), λ enough. ground (arith, test, v.open_gate))
