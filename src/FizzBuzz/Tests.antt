-- ===== src/FizzBuzz/Tests.antt =====
-- LT_1195_fizzbuzz.cpp: runs on concrete schedules.
use my_cpp_code.Common.{◌+◌, ◌-◌, ◌≤◌, ◌≡◌, refl, [], ◌∷◌, none, some}
use my_cpp_code.FizzBuzz.{
  Role, fizz, number, takes, returned, FizzBuzz, new_fizzbuzz, same_role, turn,
}
use my_cpp_code.FizzBuzz.Game.{game}
use my_cpp_code.FizzBuzz.Progress.{Reach, here, next, runs, Acts, Reach-printed, Reach-progress}
use my_cpp_code.FizzBuzz.Atomic.{new_polling, takes_loaded, step_from, step, run}
use my_cpp_code.FizzBuzz.Atomic.Order.{run-game}

-- The thread of `fizz` looks first and waits; `number` prints 1 and 2; `fizz` prints.
abbrev first_word : FizzBuzz
first_word = turn number none (turn fizz none (new_fizzbuzz 1))

abbrev first_end : FizzBuzz
first_end = turn number (some fizz) first_word

first_word-Reach : Reach (new_fizzbuzz 1) first_word
unfolding turn new_fizzbuzz takes same_role
first_word-Reach = next (next here (runs fizz none refl)) (runs number none refl)

first_end-Reach : Reach (new_fizzbuzz 1) first_end
unfolding turn new_fizzbuzz takes same_role
first_end-Reach = next first_word-Reach (runs number (some fizz) refl)

Reach-printed_example :
    (first_end.printed ≡ game (first_end.idx - 1))
    × (first_end.idx ≤ 1 + 1)
    × ((r : Role) → first_end.status r ≡ returned → first_end.printed ≡ game 1)
Reach-printed_example = Reach-printed 1 first_end-Reach

Reach-progress_example : (q : Role) × Acts first_end q
unfolding turn new_fizzbuzz takes same_role
Reach-progress_example = Reach-progress 1 first_end-Reach fizz (λ e. cc)

-- Two threads load the same value before either goes on.
run-game_example :
    let s = run (number ∷ fizz ∷ number ∷ fizz ∷ number ∷ []) (new_polling 3) in s.printed ≡ game 1
unfolding run step step_from takes_loaded takes new_polling same_role
run-game_example = (run-game 3 (number ∷ fizz ∷ number ∷ fizz ∷ number ∷ [])).0
