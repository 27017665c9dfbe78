-- ===== src/EventLoop/Tests.antt =====
-- The theorems on the event loop after a short run.
use my_cpp_code.Common.{◌+◌, ◌<◌, ◌≡◌, refl, ◌++◌}
use my_cpp_code.EventLoop.{EventLoop, new_loop, push_functor, enter_loop}
use my_cpp_code.EventLoop.Schedule.{enter, other_push, Reach, here, next, early_calls}
use my_cpp_code.EventLoop.Wakeups.{Reach-wakeups, Reach-queued}

-- The loop has gone to sleep, and another thread has queued the functor 7 but not yet woken it.
abbrev asleep : EventLoop
asleep = record (push_functor 7 (enter_loop new_loop)) {
  in_flight = (enter_loop new_loop).in_flight + 1;
}

abbrev asleep-Reach : Reach new_loop asleep
unfolding new_loop
asleep-Reach = next (next here (enter refl)) (other_push 7)

Reach-wakeups_example : 0 < asleep.wakeups + asleep.in_flight
Reach-wakeups_example =
    Reach-wakeups asleep-Reach (unfold early_calls asleep-Reach in refl)
      (unfold push_functor enter_loop in refl)
      (unfold push_functor enter_loop new_loop in (λ e. cc))

Reach-queued_example : (asleep.ran ++ (asleep.functors ++ asleep.pending)) ≡ asleep.queued
Reach-queued_example = Reach-queued asleep-Reach
