-- ===== src/FooBar/Tests.antt =====
-- LT_1115_foobar.cpp: runs on concrete schedules.
use my_cpp_code.Common.{◌+◌, ◌-◌, ◌%◌, ◌≡◌, ◌⊎◌, refl, List, [], ◌∷◌}
use my_cpp_code.FooBar.{
  Role, foo, bar, foo_word, bar_word, new_foo_bar, foo_step, bar_step, step, run,
}
use my_cpp_code.FooBar.Alternate.{alternate}
use my_cpp_code.FooBar.Turns.{printed_by, Runs, Over, run-alternate}
use my_cpp_code.FooBar.Monitor as Monitor
use my_cpp_code.FooBar.Monitor.{Act, runs, wakes, new_monitor}
use my_cpp_code.FooBar.Polling as Polling
use my_cpp_code.FooBar.Polling.{new_polling}
use my_cpp_code.FooBar.Polling.Order.{ahead, GoesOn, run_polling-alternate}
use my_cpp_code.FooBar.Monitor.Turns.{Prints, run_monitor-alternate}

abbrev eager : List Role
eager = bar ∷ foo ∷ foo ∷ foo ∷ foo ∷ bar ∷ bar ∷ foo ∷ bar ∷ foo ∷ []

eager_words : (run eager (new_foo_bar 2)).printed ≡ foo_word ∷ bar_word ∷ []
unfolding run step foo_step bar_step new_foo_bar
eager_words = refl

run-alternate_example :
    let s = run eager (new_foo_bar 2) in
    (s.printed ≡ alternate (printed_by s.foo_at + printed_by s.bar_at))
    × (Runs 2 s.semf s.foo_at
        ⊎ Runs 2 s.semb s.bar_at
        ⊎ (Over 2 s × (s.printed ≡ alternate (2 + 2))))
run-alternate_example = run-alternate 2 eager

-- `bar` waits first; `foo` waits after its word.
abbrev acts : List Act
acts = runs bar ∷ runs foo ∷ runs foo ∷ wakes foo ∷ runs foo ∷ runs bar ∷ []

run_monitor-alternate_example :
    let s = Monitor.run acts (new_monitor 2) in
    (s.printed ≡ alternate s.cnt)
    × (Prints 2 (s.cnt % 2) s.foo_at
        ⊎ Prints 2 (1 - s.cnt % 2) s.bar_at
        ⊎ (s.printed ≡ alternate (2 + 2)))
run_monitor-alternate_example = run_monitor-alternate 2 acts

-- `bar` polls in vain before the first word.
run_polling-alternate_example :
    let s = Polling.run (bar ∷ eager) (new_polling 2) in
    (s.printed ≡ alternate (s.ati + ahead s.foo_at + ahead s.bar_at))
    × (GoesOn 2 (s.ati % 2) s.foo_at
        ⊎ GoesOn 2 (1 - s.ati % 2) s.bar_at
        ⊎ (s.printed ≡ alternate (2 + 2)))
run_polling-alternate_example = run_polling-alternate 2 (bar ∷ eager)
