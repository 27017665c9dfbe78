-- ===== src/WorkStealing/Conserved.antt =====
-- thread_pool.cpp: no task is lost and none runs twice.
use my_cpp_code.Common.{
  ℕ, ◌+◌, ◌%◌, ◌<◌, ◌≡◌, ◌≢◌, refl, sym, ap, arith, List, [], ◌∷◌, Option, none, some, ltb, ltb→lt,
  ◌==◌, ==_iff, ==_refl, if◌then◌else◌, Bool-cases, inl, inr,
}
use native.Mathlib.Nat.{mod-lt}
use my_cpp_code.SafeQueue.Interface.{QueueClass}
use my_cpp_code.WorkStealing.{
  Place, starting, testing, at_local, at_pool, at_other, running, stopped, Worker, Pool, new_pool,
  set_worker, put_at, push_front, popped_local, popped_pool, stolen_from, steal_from, step, submit,
  destroy, Act, steps, submits, grows, destroys, start_worker, act, run, is_running,
}
use my_cpp_code.WorkStealing.Counts.{
  count, count-append, one, sum_to, sum_to_next, sum_to_same, sum_to_change, try_pop_front-count,
  try_steal-count, halves, lone,
}

-- How often a worker has the task, queued or at hand.
abbrev pub at_hand : ℕ → Place → ℕ
at_hand t (running x) = if x == t then 1 else 0
at_hand t _ = 0

pub has : ℕ → Worker → ℕ
has t w = count t w.queue + at_hand t w.place

module _ (c : QueueClass ℕ) where
  open c use {Queue, contents, contents-fresh, contents-push, popped, contents-try_pop}

  -- Every task that was submitted is in a queue, at hand or has run, as often as it was submitted.
  abbrev pub Conserved : ℕ → Pool c → Type 0
  Conserved t p =
      sum_to p.size (λ i. has t (p.worker i)) + count t (contents p.pool_queue) + count t p.ran
      ≡ count t p.submitted

  other_worker :
      (t i j : ℕ) (w : Worker) (p : Pool c)
      → j ≢ i
      → has t ((set_worker c i w p).worker j) ≡ has t (p.worker j)
  other_worker t i j w p d = elim (Bool-cases (j == i)) [
    | inl same ↦ absurd (d ((==_iff j i).0 same))
    | inr other ↦ rw other refl
  ]

  -- One worker and what else there is have exchanged tasks.
  exchanged :
      (t i : ℕ) (w : Worker) (p : Pool c)
      → i < p.size
      → sum_to p.size (λ j. has t ((set_worker c i w p).worker j)) + has t (p.worker i)
        ≡ sum_to p.size (λ j. has t (p.worker j)) + has t w
  exchanged t i w p l =
      let self : has t ((set_worker c i w p).worker i) ≡ has t w = rw (==_refl i) refl in
      omega (
        arith,
        sum_to_change p.size i (λ j. has t (p.worker j))
            (λ j. has t ((set_worker c i w p).worker j)) l (λ j d. other_worker t i j w p d),
        self,
      )

  -- A step that changes worker `i`, and what the pool holds.
  changed :
      (t i : ℕ) (w : Worker) (p p' : Pool c)
      → i < p.size
      → p'.size ≡ p.size
      → p'.worker ≡ (set_worker c i w p).worker
      → has t w + count t (contents p'.pool_queue) + count t p'.ran + count t p.submitted
        ≡ has t (p.worker i)
          + count t (contents p.pool_queue)
          + count t p.ran
          + count t p'.submitted
      → Conserved t p
      → Conserved t p'
  changed t i w p p' l e f h v =
      let same : sum_to p'.size (λ j. has t (p'.worker j))
          ≡ sum_to p.size (λ j. has t ((set_worker c i w p).worker j)) =
        rw (e, f) refl in
      omega (arith, exchanged t i w p l, v, h, same)

  place_kept :
      (i idx : ℕ) (left : List ℕ) (p : Pool c)
      → ((set_worker c idx (record { queue = left; place = (p.worker idx).place }) p).worker
          i).place
        ≡ (p.worker i).place
  place_kept i idx left p = elim (Bool-cases (i == idx)) [
    | inl same ↦ rw same (ap (λ (k : ℕ). (p.worker k).place) (sym ((==_iff i idx).0 same)))
    | inr other ↦ rw other refl
  ]

  put_at-Conserved :
      (t i : ℕ) (place : Place) (p : Pool c)
      → i < p.size
      → at_hand t (p.worker i).place ≡ 0
      → at_hand t place ≡ 0
      → Conserved t p
      → Conserved t (put_at c i place p)
  unfolding has
  put_at-Conserved t i place p l e f v =
      changed t i _ p (put_at c i place p) l refl refl (omega arith) v

  popped_local-Conserved :
      (t i : ℕ) (r : List ℕ × Option ℕ) (p : Pool c)
      → i < p.size
      → at_hand t (p.worker i).place ≡ 0
      → count t r.0 + one t r.1 ≡ count t (p.worker i).queue
      → Conserved t p
      → Conserved t (popped_local c i r p)
  unfolding popped_local has
  popped_local-Conserved t i (left, none) p l e h v =
      changed t i _ p (popped_local c i (left, none) p) l refl refl (omega arith) v
  popped_local-Conserved t i (left, some task) p l e h v =
      changed t i _ p (popped_local c i (left, some task) p) l refl refl (omega arith) v

  popped_pool-Conserved :
      (t i : ℕ) (r : Queue × Option ℕ) (p : Pool c)
      → i < p.size
      → at_hand t (p.worker i).place ≡ 0
      → count t (contents r.0) + one t r.1 ≡ count t (contents p.pool_queue)
      → Conserved t p
      → Conserved t (popped_pool c i r p)
  unfolding popped_pool has
  popped_pool-Conserved t i (left, none) p l e h v =
      changed t i _ p (popped_pool c i (left, none) p) l refl refl (omega arith) v
  popped_pool-Conserved t i (left, some task) p l e h v =
      changed t i _ p (popped_pool c i (left, some task) p) l refl refl (omega arith) v

  stolen_from-Conserved :
      (t i round idx : ℕ) (r : List ℕ × Option ℕ) (p : Pool c)
      → i < p.size
      → idx < p.size
      → at_hand t (p.worker i).place ≡ 0
      → count t r.0 + one t r.1 ≡ count t (p.worker idx).queue
      → Conserved t p
      → Conserved t (stolen_from c i round idx r p)
  unfolding stolen_from has
  stolen_from-Conserved t i round idx (left, none) p l m e h v =
      changed t i _ p (stolen_from c i round idx (left, none) p) l refl refl (omega arith) v
  stolen_from-Conserved t i round idx (left, some task) p l m e h v =
      let robbed : Worker = record { queue = left; place = (p.worker idx).place } in
      let p1 = set_worker c idx robbed p in
      let w : Worker = record { queue = (p1.worker i).queue; place = running task } in
      let still = ap (at_hand t) (place_kept i idx left p) in
      omega (arith, exchanged t idx robbed p m, exchanged t i w p1 l, still, v)

  try_pop-count :
      (t : ℕ) (q : Queue)
      → count t (contents (c.try_pop q).0) + one t (c.try_pop q).1 ≡ count t (contents q)
  try_pop-count t q = rw (popped q, contents-try_pop q) (halves t (contents q))

  step-Conserved :
      (t i : ℕ) (place : Place) (p : Pool c)
      → (p.worker i).place ≡ place
      → i < p.size
      → Conserved t p
      → Conserved t (step c i place p)
  unfolding step steal_from has
  step-Conserved t i starting p e l v = put_at-Conserved t i testing p l (ap (at_hand t) e) refl v
  step-Conserved t i testing p e l v = elim (Bool-cases p.done) [
    | inl over ↦ rw (over, step) (put_at-Conserved t i stopped p l (ap (at_hand t) e) refl v)
    | inr on ↦ rw (on, step) (put_at-Conserved t i at_local p l (ap (at_hand t) e) refl v)
  ]
  step-Conserved t i at_local p e l v =
      popped_local-Conserved t i _ p l (ap (at_hand t) e) (try_pop_front-count t (p.worker i).queue)
        v
  step-Conserved t i at_pool p e l v =
      popped_pool-Conserved t i _ p l (ap (at_hand t) e) (try_pop-count t p.pool_queue) v
  step-Conserved t i (at_other round) p e l v = elim (Bool-cases (ltb round p.size)) [
    | inl more ↦
        let idx = (i + round + 1) % p.size in
        rw (more, step)
          (stolen_from-Conserved t i round idx _ p l (mod-lt (i + round + 1) (omega arith))
            (ap (at_hand t) e) (try_steal-count t (p.worker idx).queue) v)
    | inr over ↦ rw (over, step) (put_at-Conserved t i testing p l (ap (at_hand t) e) refl v)
  ]
  step-Conserved t i (running task) p e l v =
      changed t i _ p (step c i (running task) p) l refl refl
        (omega (arith, count-append t p.ran (task ∷ []), ap (at_hand t) e, lone t task)) v
  step-Conserved t i stopped p e l v = v

  abbrev blank : Worker
  blank = record { queue = []; place = starting }

  abbrev grown : Pool c → Pool c
  grown p = record (set_worker c p.size blank p) { size = p.size + 1 }

  grown-Conserved : (t : ℕ) (p : Pool c) → Conserved t p → Conserved t (grown p)
  grown-Conserved t p v =
      let before : ℕ → ℕ = λ j. has t (p.worker j) in
      let after : ℕ → ℕ = λ j. has t ((set_worker c p.size blank p).worker j) in
      let same : sum_to p.size after ≡ sum_to p.size before =
        sum_to_same p.size after before
          (λ j l. other_worker t p.size j blank p (λ e. omega arith)) in
      let self : after p.size ≡ 0 = rw (==_refl p.size) (unfold has count in refl) in
      omega (arith, sum_to_next p.size after, same, self, v)

  start_worker-Conserved : (t : ℕ) (p : Pool c) → Conserved t p → Conserved t (start_worker c p)
  unfolding start_worker
  start_worker-Conserved t p v = elim (Bool-cases (ltb p.size p.th_cnt)) [
    | inl more ↦ rw (more, start_worker) (grown-Conserved t p v)
    | inr all ↦ rw (all, start_worker) v
  ]

  act-Conserved : (t : ℕ) (a : Act) (p : Pool c) → Conserved t p → Conserved t (act c a p)
  unfolding act submit destroy push_front count has
  act-Conserved t (steps i) p v = elim (Bool-cases (ltb i p.size)) [
    | inl there ↦ rw (there, act) (step-Conserved t i _ p refl (ltb→lt i p.size there) v)
    | inr none_there ↦ rw (none_there, act) v
  ]
  act-Conserved t (submits none task) p v = omega (
    arith,
    v,
    count-append t p.submitted (task ∷ []),
    ap (count t) (contents-push task p.pool_queue),
    count-append t (contents p.pool_queue) (task ∷ []),
  )
  act-Conserved t (submits (some i) task) p v = elim (Bool-cases (ltb i p.size)) [
    | inl there ↦ elim (Bool-cases (is_running (p.worker i).place)) [
      | inl busy ↦
          rw (there, busy, act)
            (changed t i _ p (submit c (some i) task p) (ltb→lt i p.size there) refl refl
              (omega (arith, count-append t p.submitted (task ∷ []), lone t task)) v)
      | inr calm ↦ rw (there, calm, act) v
    ]
    | inr none_there ↦ rw (none_there, act) v
  ]
  act-Conserved t grows p v = start_worker-Conserved t p v
  act-Conserved t destroys p v = v

  run-keeps :
      (t : ℕ) (schedule : List Act) (p : Pool c) → Conserved t p → Conserved t (run c schedule p)
  unfolding run
  run-keeps t [] p v = v
  run-keeps t (a ∷ schedule) p v = run-keeps t schedule (act c a p) (act-Conserved t a p v)

  -- Under every schedule of the workers, of the turns of the constructor that starts them, of
  -- submits by running tasks or from outside, and of the destructor's flag, for a pool of any
  -- size and every task: it is in the workers' queues, at hand, in the pool's queue and among
  -- those that have run, together as often as it was submitted. An access to the vector of
  -- queues while it grows is taken to see it whole, and `run_pending_task` to be called by the
  -- workers' loops alone.
  pub run-Conserved :
      (t th_cnt : ℕ) (schedule : List Act) → Conserved t (run c schedule (new_pool c th_cnt))
  unfolding new_pool count sum_to
  run-Conserved t th_cnt schedule =
      run-keeps t schedule (new_pool c th_cnt) (omega (arith, ap (count t) contents-fresh))
