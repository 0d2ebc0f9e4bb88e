-- ===== src/Thread/Start.antt =====
-- What holds when `start` returns (irono/base/Thread.cc).
use irono.Base.{
  ℕ, ◌<◌, ◌≤◌, ◌≡◌, ◌⊎◌, inl, inr, refl, true, false, Bool, not, ◌&&◌, some, arith, Bool-cases,
  Returns, subst, ltb,
}
use irono.ThreadPool.Schedule.{stir}
use irono.CountDownLatch
use irono.CountDownLatch.{CountDownLatch, is_positive, wait_once, wait_again, count_down}
use irono.CountDownLatch.Gate
use irono.Thread.{
  Thread, RunAt, not_created, created, reported, counted, ended, outside, waiting, started_up,
  creating, create, start, enter_latch, start_again, finish_start, report, leave_latch, end_run,
  join, finish_join,
}

-- The owner and the new thread, in any order. The kernel numbers threads from 1.
pub data Step (t : Thread) : Thread → Type 0 where
  starts : {t' : Thread} (ok : Bool) → t.owner ≡ outside → start t ok ≡ some t' → Step t t'
  enters : t.owner ≡ creating → Step t (enter_latch t)
  waits : t.owner ≡ waiting → 0 < t.latch.condition.woken → Step t (start_again t)
  stirs :
      0 < t.latch.condition.sleeping
      → Step t (record t { latch = record t.latch { condition = stir t.latch.condition } })
  reports : (tid : ℕ) → t.run ≡ created → 0 < tid → Step t (report t tid)
  counts : t.run ≡ reported → Step t (leave_latch t)
  ends : t.run ≡ counted → Step t (end_run t)
  returns :
      {t' : Thread} → t.owner ≡ waiting → 0 < t.latch.passed → finish_start t ≡ some t' → Step t t'
  joins : {t' : Thread} → t.owner ≡ started_up → join t ≡ some t' → Step t t'
  joined : t.owner ≡ started_up → t.joined ≡ true → t.run ≡ ended → Step t (finish_join t)

pub data Reach : Thread → Type 0 where
  here : Reach create
  next : {t t' : Thread} → Reach t → Step t t' → Reach t'

abbrev has_counted : RunAt → ℕ
has_counted not_created = 0
has_counted created = 0
has_counted reported = 0
has_counted counted = 1
has_counted ended = 1

abbrev has_reported : RunAt → Bool
has_reported not_created = false
has_reported created = false
has_reported reported = true
has_reported counted = true
has_reported ended = true

pub record Inv (t : Thread) : Type 0 where
  pub latch : Gate.Reach 1 t.latch
  pub counted : t.latch.counted ≡ has_counted t.run
  pub reported : has_reported t.run ≡ true → 0 < t.tid
  pub outside : t.owner ≡ outside → t.run ≡ not_created
  pub unstarted : t.started ≡ false → t.run ≡ not_created

started-Inv :
    (t : Thread)
    → t.run ≡ not_created
    → Inv t
    → Inv (record t { started = true; run = created; owner = creating })
started-Inv t fresh v = record {
  latch = v.latch;
  counted = ground (arith, v.counted);
  reported = λ h. ground arith;
  outside = λ h. ground arith;
  unstarted = λ h. ground arith;
}

Step-Inv : {t t' : Thread} → Step t t' → Inv t → Inv t'
unfolding start enter_latch start_again finish_start report leave_latch end_run join finish_join
    wait_again wait_once count_down
Step-Inv {t = t} (starts {t' = t'} true own e) v = elim (Bool-cases t.started) [
  | inl q ↦ ground (arith, e, q)
  | inr q ↦
      let same : record t { started = true; run = created; owner = creating } ≡ t' =
        ground (arith, e, q) in
      subst Inv same (started-Inv t (v.outside own) v)
]
Step-Inv {t = t} (starts {t' = t'} false own e) v = elim (Bool-cases t.started) [
  | inl q ↦ ground (arith, e, q)
  | inr q ↦
      let same : record t { started = false } ≡ t' = ground (arith, e, q) in
      subst Inv same (record {
        latch = v.latch;
        counted = v.counted;
        reported = v.reported;
        outside = v.outside;
        unstarted = λ h. v.outside own;
      })
]
Step-Inv {t = t} (enters own) v = record {
  latch = Gate.next v.latch Gate.waits;
  counted = ground (arith, v.counted);
  reported = v.reported;
  outside = λ o. ground arith;
  unstarted = v.unstarted;
}
Step-Inv {t = t} (waits own h) v = record {
  latch = Gate.next v.latch (Gate.waits_again h);
  counted = ground (arith, v.counted);
  reported = v.reported;
  outside = v.outside;
  unstarted = v.unstarted;
}
Step-Inv {t = t} (stirs h) v = record {
  latch = Gate.next v.latch (Gate.stirs h);
  counted = v.counted;
  reported = v.reported;
  outside = v.outside;
  unstarted = v.unstarted;
}
Step-Inv {t = t} (reports tid at some_tid) v = record {
  latch = v.latch;
  counted = ground (arith, v.counted);
  reported = λ h. some_tid;
  outside = λ h. ground (arith, v.outside);
  unstarted = λ h. ground (arith, v.unstarted);
}
Step-Inv {t = t} (counts at) v = record {
  latch = Gate.next v.latch Gate.counts;
  counted = ground (arith, v.counted);
  reported = λ h. ground (arith, v.reported);
  outside = λ h. ground (arith, v.outside);
  unstarted = λ h. ground (arith, v.unstarted);
}
Step-Inv {t = t} (ends at) v = record {
  latch = v.latch;
  counted = ground (arith, v.counted);
  reported = λ h. ground (arith, v.reported);
  outside = λ h. ground (arith, v.outside);
  unstarted = λ h. ground (arith, v.unstarted);
}
Step-Inv {t = t} (returns {t' = t'} own h e) v = elim (Bool-cases (ltb 0 t.tid)) [
  | inl q ↦
      let same : record t { owner = started_up } ≡ t' = ground (arith, e, q) in
      subst Inv same (record {
        latch = v.latch;
        counted = v.counted;
        reported = v.reported;
        outside = λ o. ground arith;
        unstarted = v.unstarted;
      })
  | inr q ↦ ground (arith, e, q)
]
Step-Inv {t = t} (joins {t' = t'} own e) v = elim (Bool-cases (t.started && not t.joined)) [
  | inl q ↦
      let same : record t { joined = true } ≡ t' = ground (arith, e, q) in
      subst Inv same (record {
        latch = v.latch;
        counted = v.counted;
        reported = v.reported;
        outside = v.outside;
        unstarted = v.unstarted;
      })
  | inr q ↦ ground (arith, e, q)
]
Step-Inv {t = t} (joined own h at) v = record {
  latch = v.latch;
  counted = v.counted;
  reported = v.reported;
  outside = λ o. ground arith;
  unstarted = v.unstarted;
}

pub Reach-Inv : {t : Thread} → Reach t → Inv t
unfolding create CountDownLatch.create
Reach-Inv here = record {
  latch = Gate.here;
  counted = refl;
  reported = λ h. cc;
  outside = λ h. refl;
  unstarted = λ h. refl;
}
Reach-Inv (next r s) = Step-Inv s (Reach-Inv r)

-- In every interleaving of the owner and the new thread: when the latch has let the owner through, the
-- assert at the end of `start` holds, since the thread has written its number; once the thread has
-- passed the latch, the owner does not sleep there; and a thread that is not marked as started does not
-- exist, also after `pthread_create` failed.
pub start_lem :
    (t : Thread)
    → Reach t
    → (0 < t.latch.passed → Returns (finish_start t) (λ t'. 0 < t'.tid))
      × ((t.run ≡ counted) ⊎ (t.run ≡ ended) → t.latch.condition.sleeping ≡ 0)
      × (t.started ≡ false → t.run ≡ not_created)
unfolding finish_start
start_lem t r =
    let v = Reach-Inv r in
    let gate = Gate.passes_when_counted 1 t.latch v.latch in
    (
      λ through.
          let one : 1 ≤ t.latch.counted = gate.0 through in
          let some_tid : 0 < t.tid = ground (arith, v.counted, v.reported) in
          let test : ltb 0 t.tid ≡ true = ground arith in rw test some_tid,
      λ past. gate.1 (ground (arith, v.counted)),
      v.unstarted,
    )
