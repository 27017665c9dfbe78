-- ===== src/EventLoop.antt =====
-- myserver/include/event_loop.h and myserver/common/event_loop.cpp: `EventLoop`.
--
-- The functions are the methods, on the state that they share; `in_thread` is `isInLoopThread()`.
-- `Schedule` interleaves them: the loop's own thread goes round `loop()`, and other threads call
-- `queueInLoop` and `quit` in between.
pub mod Schedule
pub mod Wakeups
mod Tests
use my_cpp_code.Common.{ℕ, ◌+◌, Bool, true, false, not, ◌||◌, List, [], ◌∷◌, ◌++◌, if◌then◌else◌}

-- Where the loop's thread is: blocked in `poll`, in the handlers of the active channels, in the
-- functors of `doPendingFunctors`, or out of `loop()`.
pub data Phase : Type 0 where
  outside polling handling running : Phase

-- A functor is a number. `wakeups` is the counter of the eventfd, `functors` the local vector of
-- `doPendingFunctors`, and `in_flight` the number of other threads that have queued a functor and
-- have not yet written to the eventfd. `ran` and `queued` record what ran and what was queued.
pub record EventLoop : Type 0 where
  pub phase : Phase
  pub looping : Bool
  pub quitting : Bool
  pub calling : Bool
  pub pending : List ℕ
  pub functors : List ℕ
  pub wakeups : ℕ
  pub in_flight : ℕ
  pub ran : List ℕ
  pub queued : List ℕ

unfoldable pub new_loop : EventLoop
new_loop = record {
  phase = outside;
  looping = false;
  quitting = false;
  calling = false;
  pending = [];
  functors = [];
  wakeups = 0;
  in_flight = 0;
  ran = [];
  queued = [];
}

-- A write of 1 to the eventfd adds 1 to its counter.
unfoldable pub wakeup : EventLoop → EventLoop
wakeup s = record s { wakeups = s.wakeups + 1 }

-- A read of the eventfd sets its counter to 0.
unfoldable pub handle_read : EventLoop → EventLoop
handle_read s = record s { wakeups = 0 }

-- The part of `queueInLoop` under the mutex.
unfoldable pub push_functor : ℕ → EventLoop → EventLoop
push_functor cb s = record s { pending = s.pending ++ (cb ∷ []); queued = s.queued ++ (cb ∷ []) }

-- `queueInLoop` called by the loop's own thread or, as one step, by another.
unfoldable pub queue_in_loop : Bool → ℕ → EventLoop → EventLoop
unfolding push_functor wakeup
queue_in_loop in_thread cb s =
    let pushed = push_functor cb s in if not in_thread || s.calling then wakeup pushed else pushed

-- A functor run at once counts as neither queued nor run from the queue.
unfoldable pub run_in_loop : Bool → ℕ → EventLoop → EventLoop
unfolding queue_in_loop
run_in_loop in_thread cb s = if in_thread then s else queue_in_loop in_thread cb s

unfoldable pub quit : Bool → EventLoop → EventLoop
unfolding wakeup
quit in_thread s =
    let quitting = record s { quitting = true } in if in_thread then wakeup quitting else quitting

-- `loop()` up to its first `poll`.
unfoldable pub enter_loop : EventLoop → EventLoop
enter_loop s = record s { phase = polling; looping = true; quitting = false }

-- `poll` has returned; the handlers of the active channels, `handleRead` among them, run next.
unfoldable pub return_from_poll : EventLoop → EventLoop
return_from_poll s = record s { phase = handling }

-- `doPendingFunctors` up to its loop: the flag is set and the vectors are swapped.
unfoldable pub begin_pending : EventLoop → EventLoop
begin_pending s = record s { phase = running; calling = true; functors = s.pending; pending = [] }

unfoldable pub run_functor : ℕ → List ℕ → EventLoop → EventLoop
run_functor f rest s = record s { functors = rest; ran = s.ran ++ (f ∷ []) }

-- The end of `doPendingFunctors`, and the test of the `while` loop in `loop()`.
unfoldable pub end_pending : EventLoop → EventLoop
end_pending s =
    let done = record s { calling = false } in
    if s.quitting
    then record done { phase = outside; looping = false }
    else record done { phase = polling }
