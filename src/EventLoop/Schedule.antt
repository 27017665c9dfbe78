-- ===== src/EventLoop/Schedule.antt =====
-- event_loop.cpp: the interleavings of the loop's thread with the threads that queue functors.
use my_cpp_code.Common.{ℕ, ◌+◌, ◌-◌, ◌<◌, ◌≡◌, ◌≢◌, true, false, List, [], ◌∷◌, ◌⊎◌}
use my_cpp_code.EventLoop.{
  EventLoop, Phase, outside, polling, handling, running, push_functor, wakeup, queue_in_loop,
  run_in_loop, quit, enter_loop, return_from_poll, handle_read, begin_pending, run_functor,
  end_pending,
}

-- The loop's thread runs callbacks of the loop.
abbrev pub IsBusy : Phase → Type 0
IsBusy p = (p ≡ handling) ⊎ (p ≡ running)

-- Another thread's `queueInLoop` is two steps, the push and the write to the eventfd, since the
-- loop's thread may run in between. `early_queue` is that of the loop's own thread outside `loop()`.
-- `handleRead` is a step of its own among the handlers of the active channels.
pub data Step (s : EventLoop) : EventLoop → Type 0 where
  enter : s.phase ≡ outside → Step s (enter_loop s)
  poll_returns : s.phase ≡ polling → Step s (return_from_poll s)
  read_wakeups : s.phase ≡ handling → 0 < s.wakeups → Step s (handle_read s)
  own_queue : (cb : ℕ) → IsBusy s.phase → Step s (queue_in_loop true cb s)
  early_queue : (cb : ℕ) → s.phase ≡ outside → Step s (queue_in_loop true cb s)
  own_run : (cb : ℕ) → s.phase ≢ polling → Step s (run_in_loop true cb s)
  own_quit : s.phase ≢ polling → Step s (quit true s)
  take_functors : s.phase ≡ handling → Step s (begin_pending s)
  call_functor :
      (f : ℕ) (rest : List ℕ)
      → s.phase ≡ running
      → s.functors ≡ f ∷ rest
      → Step s (run_functor f rest s)
  finish : s.phase ≡ running → s.functors ≡ [] → Step s (end_pending s)
  other_push : (cb : ℕ) → Step s (record (push_functor cb s) { in_flight = s.in_flight + 1 })
  other_wakeup : 0 < s.in_flight → Step s (record (wakeup s) { in_flight = s.in_flight - 1 })
  other_quit : Step s (quit false s)

pub data Reach (s : EventLoop) : EventLoop → Type 0 where
  here : Reach s s
  next : {t u : EventLoop} → Reach s t → Step t u → Reach s u

-- How often the loop's own thread has called `queueInLoop` outside `loop()`.
unfoldable pub is_early : {s t : EventLoop} → Step s t → ℕ
is_early (early_queue cb e) = 1
is_early _ = 0

unfoldable pub early_calls : {s t : EventLoop} → Reach s t → ℕ
unfolding is_early
early_calls here = 0
early_calls (next r st) = early_calls r + is_early st
