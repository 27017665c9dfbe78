-- ===== src/SafeQueue.antt =====
-- cpp_concurrency_2nd/thread_safe_stack_queue.cpp: `ts_stack` and `ts_queue`.
--
-- A member function is one step under its mutex; `wait_and_pop` is one step for each time that it gets
-- the mutex. The consumers in `wait_and_pop` are alike: `awake` of them are to test the queue next, and
-- `blocked` of them wait.
pub mod Waiting
pub mod Interface
mod Tests
use my_cpp_code.Common.{
  ℕ, zero, suc, ◌+◌, ◌-◌, Bool, true, false, List, [], ◌∷◌, ◌++◌, Option, none, some, ltb, ◌==◌,
  if◌then◌else◌,
}

pub data Popped {ℓ} (T : Type ℓ) : Type ℓ where
  value : T → Popped T
  empty_stack : Popped T

module _ {ℓ} {T : Type ℓ} where
  -- The stack, its top first.
  unfoldable pub push : T → List T → List T
  push val stk = val ∷ stk

  unfoldable pub pop : List T → List T × Popped T
  pop [] = ([], empty_stack)
  pop (top ∷ stk) = (stk, value top)

  unfoldable pub is_empty : List T → Bool
  is_empty [] = true
  is_empty (x ∷ xs) = false

  -- The copy constructor.
  unfoldable pub copy_stack : List T → List T
  copy_stack other = other

-- `pushed` and `popped` record what went in and out, in order.
pub record TsQueue {ℓ} (T : Type ℓ) : Type ℓ where
  pub que : List T
  pub awake : ℕ
  pub blocked : ℕ
  pub pushed : List T
  pub popped : List T

module _ {ℓ} {T : Type ℓ} where
  unfoldable pub new_queue : TsQueue T
  new_queue = record { que = []; awake = 0; blocked = 0; pushed = []; popped = [] }

  -- `notify_one` wakes a consumer, if one waits.
  unfoldable pub notify_one : TsQueue T → TsQueue T
  notify_one q =
      if q.blocked == 0 then q else record q { awake = q.awake + 1; blocked = q.blocked - 1 }

  unfoldable pub push_queue : T → TsQueue T → TsQueue T
  unfolding notify_one
  push_queue val q =
      notify_one (record q { que = q.que ++ (val ∷ []); pushed = q.pushed ++ (val ∷ []) })

  unfoldable pub take_front : List T → TsQueue T → TsQueue T × Option T
  take_front [] q = (q, none)
  take_front (x ∷ rest) q = (record q { que = rest; popped = q.popped ++ (x ∷ []) }, some x)

  unfoldable pub try_pop : TsQueue T → TsQueue T × Option T
  unfolding take_front
  try_pop q = take_front q.que q

  -- A consumer calls `wait_and_pop`.
  unfoldable pub arrive : TsQueue T → TsQueue T
  arrive q = record q { awake = q.awake + 1 }

  -- A consumer that gets the mutex: it waits, or pops and returns.
  unfoldable pub pop_or_wait : List T → TsQueue T → TsQueue T × Option T
  unfolding take_front
  pop_or_wait [] q = (record q { awake = q.awake - 1; blocked = q.blocked + 1 }, none)
  pop_or_wait (x ∷ rest) q = take_front (x ∷ rest) (record q { awake = q.awake - 1 })

  unfoldable pub wait_and_pop : TsQueue T → TsQueue T × Option T
  unfolding pop_or_wait
  wait_and_pop q = if q.awake == 0 then (q, none) else pop_or_wait q.que q

  unfoldable pub wakes : TsQueue T → TsQueue T
  unfolding notify_one
  wakes q = notify_one q

-- What the threads may do; the last wakes a consumer for no reason.
pub data Act {ℓ} (T : Type ℓ) : Type ℓ where
  pushes : T → Act T
  tries arrives tests spurious : Act T

module _ {ℓ} {T : Type ℓ} where
  unfoldable pub act : Act T → TsQueue T → TsQueue T
  unfolding push_queue try_pop arrive wait_and_pop wakes
  act (pushes val) q = push_queue val q
  act tries q = (try_pop q).0
  act arrives q = arrive q
  act tests q = (wait_and_pop q).0
  act spurious q = wakes q

  unfoldable pub run : List (Act T) → TsQueue T → TsQueue T
  unfolding act
  run [] q = q
  run (a ∷ schedule) q = run schedule (act a q)
