-- ===== src/WorkStealing/Tests.antt =====
-- The theorems on a pool of three threads.
use my_cpp_code.Common.{ℕ, refl, arith, false, List, [], ◌∷◌, none, some, inl, ◌==◌, if◌then◌else◌}
use my_cpp_code.SafeQueue.{new_queue, try_pop}
use my_cpp_code.SafeQueue.Interface.{QueueClass, ts_queue_class}
use my_cpp_code.WorkStealing.{at_local, Pool, new_pool, Act, steps, submits, grows, destroys, run}
use my_cpp_code.WorkStealing.Conserved.{Conserved, run-Conserved}
use my_cpp_code.WorkStealing.Turns.{Reaches}
use my_cpp_code.WorkStealing.Found.{run_pending_task-Reaches}

abbrev queues : QueueClass ℕ
unfolding new_queue try_pop
queues = ts_queue_class ℕ

-- Worker 0 takes task 7 from the pool, which submits 8 and 9, before worker 1 is there, which steals 8.
abbrev stealing : List Act
stealing =
    submits none 7
    ∷ grows
    ∷ steps 0
    ∷ steps 0
    ∷ steps 0
    ∷ steps 0
    ∷ submits (some 0) 8
    ∷ submits (some 0) 9
    ∷ grows
    ∷ grows
    ∷ steps 1
    ∷ steps 1
    ∷ steps 1
    ∷ steps 1
    ∷ steps 1
    ∷ steps 1
    ∷ steps 0
    ∷ steps 1
    ∷ destroys
    ∷ []

run-Conserved_example : Conserved queues 8 (run queues stealing (new_pool queues 3))
run-Conserved_example = run-Conserved queues 8 3 stealing

-- Only worker 0 has a task queued.
abbrev waiting_pool : Pool queues
waiting_pool = record {
  th_cnt = 3;
  size = 3;
  done = false;
  pool_queue = queues.fresh;
  worker = λ i. record { queue = if i == 0 then 4 ∷ [] else []; place = at_local };
  ran = [];
  submitted = 4 ∷ [];
}

run_pending_task-Reaches_example : Reaches queues 1 5 waiting_pool
run_pending_task-Reaches_example =
    run_pending_task-Reaches queues 1 waiting_pool (omega arith) refl
      (inl (0, omega arith, λ e. cc))
