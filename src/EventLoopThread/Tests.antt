-- ===== src/EventLoopThread/Tests.antt =====
-- The theorems on a thread with a callback.
use my_cpp_code.Common.{◌≡◌, refl, true, false, List, [], ◌∷◌, ◌++◌, some, none}
use my_cpp_code.EventLoop
use my_cpp_code.EventLoopThread.{
  returned, quitting, joining, gone, before_loop, in_loop, ended, new_thread, Act, owner_runs,
  thread_runs, wakes, act, run,
}
use my_cpp_code.EventLoopThread.HandOver.{StartsLoop, run-StartsLoop}
use my_cpp_code.EventLoopThread.Joining.{run-early_quit, destructor, run-destructor}

abbrev a_schedule : List Act
a_schedule = owner_runs ∷ owner_runs ∷ wakes ∷ owner_runs ∷ thread_runs ∷ []

run-StartsLoop_example : let s = run a_schedule (new_thread true 64) in StartsLoop true 64 s s.owner
run-StartsLoop_example = run-StartsLoop true 64 a_schedule

-- The owner waits for `m_loop`, and goes on to the destructor when it is set.
abbrev early_schedule : List Act
early_schedule = owner_runs ∷ owner_runs ∷ thread_runs ∷ thread_runs ∷ owner_runs ∷ owner_runs ∷ []

early_owner : (run early_schedule (new_thread true 64)).owner ≡ quitting
unfolding run act new_thread
early_owner = refl

early_place : (run early_schedule (new_thread true 64)).place ≡ before_loop
unfolding run act new_thread
early_place = refl

abbrev later_schedule : List Act
later_schedule = thread_runs ∷ owner_runs ∷ thread_runs ∷ []

run-early_quit_example :
    (run (early_schedule ++ (owner_runs ∷ later_schedule)) (new_thread true 64)).owner ≡ joining
run-early_quit_example =
    run-early_quit true 64 early_schedule later_schedule early_owner early_place

abbrev looping_schedule : List Act
looping_schedule =
    owner_runs ∷ thread_runs ∷ thread_runs ∷ owner_runs ∷ thread_runs ∷ thread_runs ∷ []

looping_place : (run looping_schedule (new_thread true 64)).place ≡ in_loop
unfolding run act new_thread EventLoop.enter_loop
looping_place = refl

looping_owner : (run looping_schedule (new_thread true 64)).owner ≡ returned (some 64)
unfolding run act new_thread EventLoop.enter_loop
looping_owner = refl

run-destructor_example :
    let t = run destructor (run looping_schedule (new_thread true 64)) in
    (t.owner ≡ gone)
    × (t.place ≡ ended)
    × (t.joined ≡ true)
    × (t.detached ≡ false)
    × (t.m_loop ≡ none)
run-destructor_example = run-destructor true 64 looping_schedule looping_owner looping_place
