-- ===== src/FizzBuzz/Atomic.antt =====
-- LT_1195_fizzbuzz.cpp, `FizzBuzz_`: the four threads poll an atomic counter.
--
-- A load, the call of the print function and the increment are three steps, between which the other
-- threads run.
pub mod Invariant
pub mod Order
use my_cpp_code.Common.{
  ℕ, ◌+◌, ◌%◌, Bool, true, false, not, ◌&&◌, List, [], ◌∷◌, ◌++◌, ltb, ◌==◌, if◌then◌else◌,
}
use my_cpp_code.FizzBuzz.{Role, fizz, buzz, fizzbuzz, number, Word, word, takes, same_role}

-- Where a thread is in the body of its loop; `printing i` and `adding` stand in the branch of the test.
pub data Local : Type 0 where
  loading adding returned : Local
  printing : ℕ → Local

pub record Polling : Type 0 where
  pub n : ℕ
  pub ati : ℕ
  pub local : Role → Local
  pub printed : List Word

unfoldable pub new_polling : ℕ → Polling
new_polling n = record { n = n; ati = 1; local = λ r. loading; printed = [] }

-- `fizzbuzz` tests `t2 % 15` here.
unfoldable pub takes_loaded : Role → ℕ → Bool
unfolding takes
takes_loaded fizzbuzz t2 = t2 % 15 == 0
takes_loaded fizz t2 = takes fizz t2
takes_loaded buzz t2 = takes buzz t2
takes_loaded number t2 = takes number t2

abbrev pub set_local : Role → Local → (Role → Local) → Role → Local
set_local r v local q = if same_role q r then v else local q

-- The thread's next step, from where it is.
unfoldable pub step_from : Local → Role → Polling → Polling
step_from loading r s =
    let t2 = s.ati in
    if ltb s.n t2
    then record s { local = set_local r returned s.local }
    else if takes_loaded r t2
    then record s { local = set_local r (printing t2) s.local }
    else s
step_from (printing t2) r s = record s {
  local = set_local r adding s.local;
  printed = s.printed ++ (word r t2 ∷ []);
}
step_from adding r s = record s { local = set_local r loading s.local; ati = s.ati + 1 }
step_from returned r s = s

unfoldable pub step : Role → Polling → Polling
unfolding step_from
step r s = step_from (s.local r) r s

-- The threads run in the order of a schedule.
unfoldable pub run : List Role → Polling → Polling
run [] s = s
run (r ∷ rs) s = run rs (step r s)
