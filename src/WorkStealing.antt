-- ===== src/WorkStealing.antt =====
-- cpp_concurrency_2nd/thread_pool.cpp: `work_stealing_queue` and `thread_pool_6`.
--
-- Each call of a queue is one step, and so is a task that runs, during which its thread may submit
-- others. A task is a number. The pool's own queue is a parameter, `QueueClass`. A turn of the loop in
-- the constructor, which adds a queue and starts its thread, is a step beside those of the threads that
-- run already. The source reads the vector `queues` in them while it grows, without a lock; the model
-- takes each such access as one that sees the vector whole. `run_pending_task` is what the loops of the
-- workers call: it is public, and its calls by tasks or by threads outside the pool are not modelled.
pub mod Conserved
pub mod Found
mod Counts
mod Turns
mod Tests
use my_cpp_code.Common.{
  ℕ, zero, suc, ◌+◌, ◌%◌, Bool, true, false, List, [], ◌∷◌, ◌++◌, Option, none, some, ltb, ◌==◌,
  if◌then◌else◌,
}
use my_cpp_code.SafeQueue.Interface.{QueueClass}

-- `work_stealing_queue`, its front first.
unfoldable pub push_front : ℕ → List ℕ → List ℕ
push_front task the_queue = task ∷ the_queue

unfoldable pub try_pop_front : List ℕ → List ℕ × Option ℕ
try_pop_front [] = ([], none)
try_pop_front (task ∷ the_queue) = (the_queue, some task)

unfoldable pub try_steal : List ℕ → List ℕ × Option ℕ
try_steal [] = ([], none)
try_steal (task ∷ []) = ([], some task)
try_steal (task ∷ next ∷ the_queue) =
    let (left, stolen) = try_steal (next ∷ the_queue) in (task ∷ left, stolen)

-- Where a worker is: before it sets `local_work_queue`, before the loop's condition, before its own
-- queue, the pool's, or the one of the other queues that it tries in round `i`, in a task, or out.
pub data Place : Type 0 where
  starting testing at_local at_pool : Place
  at_other : ℕ → Place
  running : ℕ → Place
  stopped : Place

pub record Worker : Type 0 where
  pub queue : List ℕ
  pub place : Place

pub data Act : Type 0 where
  steps : ℕ → Act
  submits : Option ℕ → ℕ → Act
  grows destroys : Act

abbrev pub is_running : Place → Bool
is_running (running task) = true
is_running _ = false

module _ (c : QueueClass ℕ) where
  open c use {Queue, fresh, push, try_pop}

  -- `size` is the number of queues, and of threads, so far, and `th_cnt` that which the constructor
  -- makes; `ran` and `submitted` record the tasks.
  pub record Pool : Type 0 where
    pub th_cnt : ℕ
    pub size : ℕ
    pub done : Bool
    pub pool_queue : Queue
    pub worker : ℕ → Worker
    pub ran : List ℕ
    pub submitted : List ℕ

  unfoldable pub new_pool : ℕ → Pool
  new_pool th_cnt = record {
    th_cnt = th_cnt;
    size = 0;
    done = false;
    pool_queue = fresh;
    worker = λ i. record { queue = []; place = starting };
    ran = [];
    submitted = [];
  }

  abbrev pub set_worker : ℕ → Worker → Pool → Pool
  set_worker i w p = record p { worker = λ j. if j == i then w else p.worker j }

  abbrev pub put_at : ℕ → Place → Pool → Pool
  put_at i place p = set_worker i (record { queue = (p.worker i).queue; place = place }) p

  -- A turn of the constructor's loop.
  unfoldable pub start_worker : Pool → Pool
  start_worker p =
      if ltb p.size p.th_cnt
      then record (set_worker p.size (record { queue = []; place = starting }) p) {
        size = p.size + 1;
      }
      else p

  -- The rest of `pop_task_from_local_queue` and of the others, for what their queue gave.
  unfoldable pub popped_local : ℕ → List ℕ × Option ℕ → Pool → Pool
  popped_local i (left, none) p = put_at i at_pool p
  popped_local i (left, some task) p =
      set_worker i (record { queue = left; place = running task }) p

  unfoldable pub popped_pool : ℕ → Queue × Option ℕ → Pool → Pool
  popped_pool i (left, none) p = put_at i (at_other 0) (record p { pool_queue = left })
  popped_pool i (left, some task) p = put_at i (running task) (record p { pool_queue = left })

  unfoldable pub stolen_from : ℕ → ℕ → ℕ → List ℕ × Option ℕ → Pool → Pool
  stolen_from i round idx (left, none) p = put_at i (at_other (round + 1)) p
  stolen_from i round idx (left, some task) p =
      put_at i (running task)
        (set_worker idx (record { queue = left; place = (p.worker idx).place }) p)

  unfoldable pub steal_from : ℕ → ℕ → ℕ → Pool → Pool
  unfolding stolen_from try_steal
  steal_from i round idx p = stolen_from i round idx (try_steal (p.worker idx).queue) p

  -- The next step of worker `i`.
  unfoldable pub step : ℕ → Place → Pool → Pool
  unfolding popped_local popped_pool steal_from try_pop_front
  step i starting p = put_at i testing p
  step i testing p = if p.done then put_at i stopped p else put_at i at_local p
  step i at_local p = popped_local i (try_pop_front (p.worker i).queue) p
  step i at_pool p = popped_pool i (try_pop p.pool_queue) p
  step i (at_other round) p =
      if ltb round p.size
      then steal_from i round ((i + round + 1) % p.size) p
      else put_at i testing p
  step i (running task) p = put_at i testing (record p { ran = p.ran ++ (task ∷ []) })
  step i stopped p = p

  -- `submit`, called by a task of worker `i` or by a thread outside the pool.
  unfoldable pub submit : Option ℕ → ℕ → Pool → Pool
  unfolding push_front
  submit none task p = record p {
    pool_queue = push task p.pool_queue;
    submitted = p.submitted ++ (task ∷ []);
  }
  submit (some i) task p =
      set_worker i
        (record { queue = push_front task (p.worker i).queue; place = (p.worker i).place })
        (record p { submitted = p.submitted ++ (task ∷ []) })

  -- The destructor, before `joiner` joins the threads.
  unfoldable pub destroy : Pool → Pool
  destroy p = record p { done = true }

  -- Only a worker that runs a task can submit one as a worker.
  unfoldable pub act : Act → Pool → Pool
  unfolding step submit destroy start_worker
  act (steps i) p = if ltb i p.size then step i (p.worker i).place p else p
  act (submits none task) p = submit none task p
  act (submits (some i) task) p =
      if ltb i p.size
      then if is_running (p.worker i).place then submit (some i) task p else p
      else p
  act grows p = start_worker p
  act destroys p = destroy p

  unfoldable pub run : List Act → Pool → Pool
  unfolding act
  run [] p = p
  run (a ∷ schedule) p = run schedule (act a p)
