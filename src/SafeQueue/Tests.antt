-- ===== src/SafeQueue/Tests.antt =====
-- The theorem on `ts_queue` at a run with consumers that wait.
use my_cpp_code.Common.{ℕ, ◌≡◌, refl, List, [], ◌∷◌, ◌++◌}
use my_cpp_code.SafeQueue.{new_queue, Act, pushes, tries, arrives, tests, spurious, run}
use my_cpp_code.SafeQueue.Waiting.{NotLost, run-fifo}

-- Two consumers wait; a third takes what was pushed for one of them.
abbrev contended : List (Act ℕ)
contended =
    arrives
    ∷ tests
    ∷ arrives
    ∷ tests
    ∷ pushes 5
    ∷ tries
    ∷ tests
    ∷ spurious
    ∷ pushes 6
    ∷ pushes 7
    ∷ []

contended_left : (run contended (new_queue {T = ℕ})).que ≡ 6 ∷ 7 ∷ []
unfolding run new_queue
contended_left = refl

run-fifo_example :
    let q = run contended (new_queue {T = ℕ}) in (q.pushed ≡ q.popped ++ q.que) × NotLost q
run-fifo_example = run-fifo contended
