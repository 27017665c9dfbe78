-- ===== src/EventLoopThread.antt =====
-- myserver/include/event_loop_thread.h, thread/event_loop_thread.cpp, include/mythread.h and
-- thread/mythread.cpp: `EventLoopThread`, on its `MyThread`.
--
-- Its owner calls `startLoop` and later the destructor, while the new thread runs `threadFunc`. What
-- stands between two accesses of shared state is one step, a critical section too. The methods of the
-- loop are those of EventLoop, and only the destructor calls `quit`.
pub mod HandOver
pub mod Joining
mod Tests
use my_cpp_code.Common.{
  ℕ, ◌+◌, Bool, true, false, not, ◌&&◌, List, [], ◌∷◌, Option, none, some, if◌then◌else◌,
}
use my_cpp_code.EventLoop
use my_cpp_code.EventLoop.{
  EventLoop, Phase, outside, polling, handling, running, new_loop, enter_loop, return_from_poll,
  begin_pending, run_functor, end_pending,
}

-- Where the owner is: before `startLoop`, before the test of `m_loop` under the mutex, blocked in
-- `m_cond.wait`, back with what `startLoop` returned, in the destructor before `quit`, before `join`, or
-- done.
pub data Owner : Type 0 where
  idle testing waiting : Owner
  returned : Option ℕ → Owner
  quitting joining gone : Owner

-- Where the thread is in `threadFunc`: before the callback, before and after it sets `m_loop`, in
-- `loop()`, before it resets `m_loop`, or out.
pub data Place : Type 0 where
  absent starting publishing before_loop in_loop leaving ended : Place

-- `address` is that of the thread's loop. `callbacks` counts the calls of `m_initCallback`.
pub record EventLoopThread : Type 0 where
  pub address : ℕ
  pub m_loop : Option ℕ
  pub exiting : Bool
  pub owner : Owner
  pub place : Place
  pub loop : EventLoop
  pub has_callback : Bool
  pub callbacks : ℕ
  pub started : Bool
  pub joined : Bool
  pub detached : Bool

unfoldable pub new_thread : Bool → ℕ → EventLoopThread
new_thread has_callback address = record {
  address = address;
  m_loop = none;
  exiting = false;
  owner = idle;
  place = absent;
  loop = new_loop;
  has_callback = has_callback;
  callbacks = 0;
  started = false;
  joined = false;
  detached = false;
}

-- The end of the destructor, with that of `MyThread`.
unfoldable pub destroy_thread : EventLoopThread → EventLoopThread
destroy_thread s = record s { owner = gone; detached = s.started && not s.joined }

abbrev has_ended : Place → Bool
has_ended ended = true
has_ended _ = false

-- The owner's next step; `m_thread.start()` returns when the thread runs, and `join` when it is out.
unfoldable pub owner_step : Owner → EventLoopThread → EventLoopThread
unfolding destroy_thread
owner_step idle s = record s { owner = testing; place = starting; started = true }
owner_step testing s = elim s.m_loop [
  | none ↦ record s { owner = waiting }
  | some a ↦ record s { owner = returned (some a) }
]
owner_step waiting s = s
owner_step (returned r) s =
    let leaves = record s { exiting = true } in
    elim s.m_loop [ none ↦ destroy_thread leaves | some a ↦ record leaves { owner = quitting } ]
owner_step quitting s = record s {
  owner = joining;
  loop = EventLoop.quit false s.loop;
  joined = true;
}
owner_step joining s = if has_ended s.place then destroy_thread s else s
owner_step gone s = s

abbrev pub woken : Owner → Owner
woken waiting = testing
woken o = o

-- The thread goes on in `loop()`; no channel is active.
unfoldable pub round_step : Phase → EventLoop → EventLoop
round_step polling l = return_from_poll l
round_step handling l = begin_pending l
round_step running l = elim l.functors [ [] ↦ end_pending l | f ∷ rest ↦ run_functor f rest l ]
round_step outside l = l

abbrev pub is_outside : Phase → Bool
is_outside outside = true
is_outside _ = false

unfoldable pub thread_step : Place → EventLoopThread → EventLoopThread
unfolding round_step
thread_step absent s = s
thread_step starting s = record s {
  place = publishing;
  callbacks = if s.has_callback then s.callbacks + 1 else s.callbacks;
}
thread_step publishing s = record s {
  place = before_loop;
  m_loop = some s.address;
  owner = woken s.owner;
}
thread_step before_loop s = record s { place = in_loop; loop = enter_loop s.loop }
thread_step in_loop s =
    if is_outside s.loop.phase
    then record s { place = leaving }
    else record s { loop = round_step s.loop.phase s.loop }
thread_step leaving s = record s { place = ended; m_loop = none }
thread_step ended s = s

-- What the scheduler may do; the last wakes the owner for no reason.
pub data Act : Type 0 where
  owner_runs thread_runs wakes : Act

unfoldable pub act : Act → EventLoopThread → EventLoopThread
unfolding owner_step thread_step
act owner_runs s = owner_step s.owner s
act thread_runs s = thread_step s.place s
act wakes s = record s { owner = woken s.owner }

unfoldable pub run : List Act → EventLoopThread → EventLoopThread
unfolding act
run [] s = s
run (a ∷ schedule) s = run schedule (act a s)
