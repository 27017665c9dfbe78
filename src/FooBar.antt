-- ===== src/FooBar.antt =====
-- any/concurrency/LT_1115_foobar.cpp, `FooBar`: two threads that take turns by two semaphores.
--
-- An acquire, a call of the print function and a release are steps of their own. A thread that cannot
-- acquire stays where it is.
pub mod Alternate
pub mod Turns
pub mod Monitor
pub mod Polling
mod Tests
use my_cpp_code.Common.{
  ℕ, zero, suc, ◌+◌, ◌-◌, Bool, true, false, List, [], ◌∷◌, ◌++◌, ltb, ◌==◌, if◌then◌else◌,
}

pub data Word : Type 0 where
  foo_word bar_word : Word

pub data Role : Type 0 where
  foo bar : Role

-- A thread in round `i` of its loop; it has returned when it would acquire in round `n`.
pub data Loop : Type 0 where
  acquiring printing releasing : ℕ → Loop

pub record FooBar : Type 0 where
  pub n : ℕ
  pub semf : ℕ
  pub semb : ℕ
  pub foo_at : Loop
  pub bar_at : Loop
  pub printed : List Word

unfoldable pub new_foo_bar : ℕ → FooBar
new_foo_bar n = record {
  n = n;
  semf = 1;
  semb = 0;
  foo_at = acquiring 0;
  bar_at = acquiring 0;
  printed = [];
}

unfoldable pub foo_step : Loop → FooBar → FooBar
foo_step (acquiring i) s =
    if ltb i s.n
    then if s.semf == 0 then s else record s { semf = s.semf - 1; foo_at = printing i }
    else s
foo_step (printing i) s = record s { printed = s.printed ++ (foo_word ∷ []); foo_at = releasing i }
foo_step (releasing i) s = record s { semb = s.semb + 1; foo_at = acquiring (i + 1) }

unfoldable pub bar_step : Loop → FooBar → FooBar
bar_step (acquiring i) s =
    if ltb i s.n
    then if s.semb == 0 then s else record s { semb = s.semb - 1; bar_at = printing i }
    else s
bar_step (printing i) s = record s { printed = s.printed ++ (bar_word ∷ []); bar_at = releasing i }
bar_step (releasing i) s = record s { semf = s.semf + 1; bar_at = acquiring (i + 1) }

unfoldable pub step : Role → FooBar → FooBar
unfolding foo_step bar_step
step foo s = foo_step s.foo_at s
step bar s = bar_step s.bar_at s

-- The threads run in the order of a schedule.
unfoldable pub run : List Role → FooBar → FooBar
unfolding step
run [] s = s
run (r ∷ schedule) s = run schedule (step r s)
