-- ===== src/EventLoopThread/Joining.antt =====
-- event_loop_thread.cpp: the destructor ends the thread, or waits for it for ever.
use my_cpp_code.Common.{ℕ, ◌≡◌, refl, ap, arith, Bool, true, false, List, [], ◌∷◌, ◌++◌, none, some}
use my_cpp_code.EventLoop
use my_cpp_code.EventLoop.{
  EventLoop, Phase, outside, polling, handling, running, new_loop, enter_loop, return_from_poll,
  handle_read, begin_pending, run_functor, end_pending,
}
use my_cpp_code.EventLoopThread.{
  returned, quitting, joining, gone, Place, before_loop, in_loop, ended, EventLoopThread,
  new_thread, destroy_thread, owner_step, round_step, is_outside, thread_step, Act, owner_runs,
  thread_runs, wakes, act, run,
}
use my_cpp_code.EventLoopThread.HandOver.{Inv, run-Inv, new_thread-Inv, round_lem, is_in_loop}

abbrev early : Place → Bool
early before_loop = true
early in_loop = true
early _ = false

-- The destructor waits in `join`, and the loop has not heard of the `quit`.
record Stuck (s : EventLoopThread) : Type 0 where
  owner : s.owner ≡ joining
  place : early s.place ≡ true
  deaf : is_in_loop s.place ≡ true → (s.loop.quitting ≡ false) × (is_outside s.loop.phase ≡ false)
  nothing : (s.loop.functors ≡ []) × (s.loop.pending ≡ [])

thread_step-Stuck :
    (p : Place) (s : EventLoopThread) → s.place ≡ p → Stuck s → Stuck (thread_step p s)
unfolding thread_step enter_loop
thread_step-Stuck before_loop s e v = ground arith
thread_step-Stuck in_loop s e v =
    let heard = v.deaf (ap is_in_loop e) in
    let (q, f, g, h) = round_lem s.loop.phase s.loop refl v.nothing.0 v.nothing.1 in
    rw (heard.1, thread_step)
      (record {
        owner = v.owner;
        place = v.place;
        deaf = λ x. (ground (arith, q, heard), h heard.0 heard.1);
        nothing = (f, g);
      })
thread_step-Stuck other s e v = absurd (ground arith)

act-Stuck : (x : Act) (s : EventLoopThread) → Stuck s → Stuck (act x s)
unfolding act owner_step
act-Stuck owner_runs s v = ground arith
act-Stuck thread_runs s v = thread_step-Stuck s.place s refl v
act-Stuck wakes s v = ground arith

run-Stuck : (schedule : List Act) (s : EventLoopThread) → Stuck s → Stuck (run schedule s)
unfolding run
run-Stuck [] s v = v
run-Stuck (x ∷ schedule) s v = run-Stuck schedule (act x s) (act-Stuck x s v)

-- `quit` has been called, on the way to `join`, before the thread enters `loop()`.
early_quit-Stuck :
    (b : Bool) (a : ℕ) (s : EventLoopThread)
    → Inv b a s
    → s.owner ≡ quitting
    → s.place ≡ before_loop
    → Stuck (act owner_runs s)
unfolding act owner_step EventLoop.quit
early_quit-Stuck b a s v o p = rw o (record {
  owner = refl;
  place = rw p refl;
  deaf = λ h. absurd (ground (arith, p));
  nothing = v.idle_loop;
})

run-append : (xs ys : List Act) (s : EventLoopThread) → run (xs ++ ys) s ≡ run ys (run xs s)
unfolding run
run-append [] ys s = refl
run-append (x ∷ xs) ys s = run-append xs ys (act x s)

-- Whenever, under any schedule, the destructor is about to call `quit` while the thread has set
-- `m_loop` and not entered `loop()`, which resets the flag: once `quit` is called the destructor
-- waits in `join` for ever, under every schedule from there on.
pub run-early_quit :
    (b : Bool) (a : ℕ) (earlier later : List Act)
    → (run earlier (new_thread b a)).owner ≡ quitting
    → (run earlier (new_thread b a)).place ≡ before_loop
    → (run (earlier ++ (owner_runs ∷ later)) (new_thread b a)).owner ≡ joining
unfolding run
run-early_quit b a earlier later o p =
    let s = run earlier (new_thread b a) in
    let v = run-Inv b a earlier (new_thread b a) (new_thread-Inv b a) in
    rw (run-append earlier (owner_runs ∷ later) (new_thread b a))
      (run-Stuck later (act owner_runs s) (early_quit-Stuck b a s v o p)).owner

-- The destructor, in which the thread gets five steps.
abbrev pub destructor : List Act
destructor =
    owner_runs ∷ owner_runs ∷ thread_runs ∷ thread_runs ∷ thread_runs ∷ thread_runs ∷ thread_runs
    ∷ owner_runs ∷ []

destructs :
    (b : Bool) (a : ℕ) (s : EventLoopThread) (p : Phase)
    → s.loop.phase ≡ p
    → Inv b a s
    → s.owner ≡ returned (some a)
    → s.place ≡ in_loop
    → let t = run destructor s in
      (t.owner ≡ gone)
      × (t.place ≡ ended)
      × (t.joined ≡ true)
      × (t.detached ≡ false)
      × (t.m_loop ≡ none)
unfolding run act owner_step thread_step destroy_thread EventLoop.quit round_step return_from_poll
    begin_pending end_pending
destructs b a s polling e v o h = ground arith
destructs b a s handling e v o h = ground arith
destructs b a s running e v o h = ground arith
destructs b a s outside e v o h = absurd (ground arith)

-- When, under any schedule, `startLoop` has returned and the thread is in `loop()`, with no
-- functor queued, a destructor that runs now is through after five steps of the thread: the
-- thread is out and joined, not detached, and `m_loop` is null.
pub run-destructor :
    (b : Bool) (a : ℕ) (schedule : List Act)
    → (run schedule (new_thread b a)).owner ≡ returned (some a)
    → (run schedule (new_thread b a)).place ≡ in_loop
    → let t = run destructor (run schedule (new_thread b a)) in
      (t.owner ≡ gone)
      × (t.place ≡ ended)
      × (t.joined ≡ true)
      × (t.detached ≡ false)
      × (t.m_loop ≡ none)
run-destructor b a schedule o h =
    let s = run schedule (new_thread b a) in
    destructs b a s s.loop.phase refl (run-Inv b a schedule (new_thread b a) (new_thread-Inv b a)) o
      h
