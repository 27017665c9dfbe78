-- ===== src/Parallel/Tests.antt =====
-- parallel_find_accu_async_for_each.cpp: two threads.
use my_cpp_code.Common.{
  Bool, true, false, [], ◌∷◌, ℕ, zero, suc, ◌+◌, ◌*◌, ◌<◌, ◌≡◌, arith, List, ◌++◌, some, ◌==◌,
  replicate,
}
use my_cpp_code.Parallel.{num_threads, accumulate, parallel_accumulate, parallel_accu}
use my_cpp_code.Parallel.Sums.{Sum, parallel_sums-accumulate}
use my_cpp_code.Parallel.Find.{parallel_find}
use my_cpp_code.Parallel.Find.Result.{turns, Found, parallel_find-Found}
use my_cpp_code.Parallel.FindAsync.{parallel_find_async}
use my_cpp_code.Parallel.FindAsync.Result.{into, Fair, parallel_find_async-Found}

abbrev sixty : List ℕ
sixty = replicate 60 1

add_Sum : Sum ◌+◌ 0
add_Sum = record { assoc = λ a b c. omega arith; left = λ a. omega arith; right = λ a. omega arith }

parallel_sums-accumulate_example :
    (parallel_accumulate ◌+◌ 0 4 sixty 7 ≡ accumulate ◌+◌ sixty 7)
    × (parallel_accu ◌+◌ 0 4 sixty 7 ≡ accumulate ◌+◌ sixty 7)
parallel_sums-accumulate_example = parallel_sums-accumulate ◌+◌ 0 add_Sum 4 sixty 7 (omega arith)

-- One thread, then the other.
abbrev in_turn : List ℕ
in_turn = replicate 53 0 ++ replicate 53 1

in_turn_fair : (i : ℕ) → i < num_threads 8 26 → 2 * 26 < turns i in_turn
unfolding num_threads
in_turn_fair zero h = omega arith
in_turn_fair (suc zero) h = omega arith
in_turn_fair (suc (suc i)) h = absurd (omega arith)

parallel_find-Found_example :
    (r : ℕ) × (parallel_find (λ p. p == 20) 8 26 in_turn ≡ some r) × Found (λ p. p == 20) 26 r
parallel_find-Found_example =
    parallel_find-Found (λ p. p == 20) 8 26 in_turn (omega arith) in_turn_fair

-- The halves of 60 elements, the asynchronous one first.
abbrev halves : List (List Bool)
halves = replicate 61 (false ∷ []) ++ replicate 61 (true ∷ [])

halves-Fair : Fair 61 0 60 halves
unfolding into
halves-Fair = omega arith

parallel_find_async-Found_example :
    (r : ℕ) × (parallel_find_async (λ p. p == 40) 61 60 halves ≡ some r) × Found (λ p. p == 40) 60 r
parallel_find_async-Found_example =
    parallel_find_async-Found (λ p. p == 40) 60 61 halves (omega arith) halves-Fair
