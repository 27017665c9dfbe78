-- ===== src/FooBar/Polling.antt =====
-- any/concurrency/LT_1115_foobar.cpp, `FooBar_1`: two threads that take turns by polling an atomic
-- counter.
--
-- A load of the counter, a word printed and an addition are one step each.
pub mod Order
use my_cpp_code.Common.{
  ℕ, zero, suc, ◌+◌, ◌%◌, Bool, true, false, List, [], ◌∷◌, ◌++◌, ltb, ◌==◌, if◌then◌else◌,
}
use my_cpp_code.FooBar.{Word, foo_word, bar_word, Role, foo, bar}

-- A thread in round `i` of its loop: before a load, before it prints, or before it adds.
pub data Spot : Type 0 where
  loading printing adding : ℕ → Spot

pub record Polling : Type 0 where
  pub n : ℕ
  pub ati : ℕ
  pub foo_at : Spot
  pub bar_at : Spot
  pub printed : List Word

unfoldable pub new_polling : ℕ → Polling
new_polling n = record { n = n; ati = 0; foo_at = loading 0; bar_at = loading 0; printed = [] }

-- A thread whose loop has ended stays where it is.
unfoldable pub foo_step : Spot → Polling → Polling
foo_step (loading i) s =
    if ltb i s.n then if s.ati % 2 == 1 then s else record s { foo_at = printing i } else s
foo_step (printing i) s = record s { foo_at = adding i; printed = s.printed ++ (foo_word ∷ []) }
foo_step (adding i) s = record s { foo_at = loading (i + 1); ati = s.ati + 1 }

unfoldable pub bar_step : Spot → Polling → Polling
bar_step (loading i) s =
    if ltb i s.n then if s.ati % 2 == 0 then s else record s { bar_at = printing i } else s
bar_step (printing i) s = record s { bar_at = adding i; printed = s.printed ++ (bar_word ∷ []) }
bar_step (adding i) s = record s { bar_at = loading (i + 1); ati = s.ati + 1 }

unfoldable pub step_of : Role → Polling → Polling
unfolding foo_step bar_step
step_of foo s = foo_step s.foo_at s
step_of bar s = bar_step s.bar_at s

unfoldable pub run : List Role → Polling → Polling
unfolding step_of
run [] s = s
run (r ∷ schedule) s = run schedule (step_of r s)
