-- ===== src/LockFree/Tests.antt =====
-- lock_free_stack.cpp, `lock_free_stack_7`: two threads push at once, then one pops.
use my_cpp_code.Common.{ℕ, ◌≡◌, refl, List, [], ◌∷◌, some}
use my_cpp_code.LockFree.{
  Move, begin_push, begin_pop, go_on, weak_fail, put, took, empty_stack, load_old, exchange_push,
  exchange_pop, step_from, run,
}
use my_cpp_code.LockFree.History.{Refines, run-Refines}

-- Thread 1 loses the race to thread 0 and fails once more for no reason.
abbrev schedule : List (ℕ × Move ℕ)
schedule =
    (0, begin_push 5)
    ∷ (1, begin_push 6)
    ∷ (0, go_on)
    ∷ (1, go_on)
    ∷ (0, go_on)
    ∷ (1, go_on)
    ∷ (1, weak_fail)
    ∷ (1, go_on)
    ∷ (0, begin_pop)
    ∷ (0, go_on)
    ∷ (0, go_on)
    ∷ (0, go_on)
    ∷ []

history : (run schedule empty_stack).0 ≡ put 5 ∷ put 6 ∷ took (some 6) ∷ []
unfolding run step_from load_old exchange_push exchange_pop empty_stack
history = refl

run-Refines_example : let r = run schedule empty_stack in Refines r.0 r.1
run-Refines_example = run-Refines schedule
