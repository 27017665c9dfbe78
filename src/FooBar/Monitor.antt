-- ===== src/FooBar/Monitor.antt =====
-- any/concurrency/LT_1115_foobar.cpp, `FooBar_2`: two threads that take turns by a counter under a mutex
-- and a condition variable.
--
-- A round of a thread's loop, from the lock to its release, is one step. Only the other thread can be
-- waiting when one notifies.
pub mod Turns
use my_cpp_code.Common.{
  ℕ, zero, suc, ◌+◌, ◌%◌, Bool, true, false, List, [], ◌∷◌, ◌++◌, ltb, ◌==◌, if◌then◌else◌,
}
use my_cpp_code.FooBar.{Word, foo_word, bar_word, Role, foo, bar}

-- A thread in round `i`: about to lock, or blocked in `cv.wait`.
pub data Loop : Type 0 where
  ready waiting : ℕ → Loop

pub record Monitor : Type 0 where
  pub n : ℕ
  pub cnt : ℕ
  pub foo_at : Loop
  pub bar_at : Loop
  pub printed : List Word

unfoldable pub new_monitor : ℕ → Monitor
new_monitor n = record { n = n; cnt = 0; foo_at = ready 0; bar_at = ready 0; printed = [] }

abbrev pub woken : Loop → Loop
woken (ready i) = ready i
woken (waiting i) = ready i

unfoldable pub foo_round : Loop → Monitor → Monitor
foo_round (ready i) s =
    if ltb i s.n
    then if s.cnt % 2 == 0
      then record s {
        cnt = s.cnt + 1;
        foo_at = ready (i + 1);
        bar_at = woken s.bar_at;
        printed = s.printed ++ (foo_word ∷ []);
      }
      else record s { foo_at = waiting i }
    else s
foo_round (waiting i) s = s

unfoldable pub bar_round : Loop → Monitor → Monitor
bar_round (ready i) s =
    if ltb i s.n
    then if s.cnt % 2 == 1
      then record s {
        cnt = s.cnt + 1;
        bar_at = ready (i + 1);
        foo_at = woken s.foo_at;
        printed = s.printed ++ (bar_word ∷ []);
      }
      else record s { bar_at = waiting i }
    else s
bar_round (waiting i) s = s

-- What the scheduler may do: let a thread run, or wake it for no reason.
pub data Act : Type 0 where
  runs wakes : Role → Act

unfoldable pub act : Act → Monitor → Monitor
unfolding foo_round bar_round
act (runs foo) s = foo_round s.foo_at s
act (runs bar) s = bar_round s.bar_at s
act (wakes foo) s = record s { foo_at = woken s.foo_at }
act (wakes bar) s = record s { bar_at = woken s.bar_at }

unfoldable pub run : List Act → Monitor → Monitor
unfolding act
run [] s = s
run (a ∷ schedule) s = run schedule (act a s)
