-- ===== src/FizzBuzz/Atomic/Order.antt =====
-- LT_1195_fizzbuzz.cpp, `FizzBuzz_`: the output under every schedule.
use my_cpp_code.Common.{ℕ, ◌+◌, ◌≤◌, ◌<◌, ◌≡◌, ap, ◌∙◌, arith, List}
use my_cpp_code.FizzBuzz.{Role}
use my_cpp_code.FizzBuzz.Game.{game, taker}
use my_cpp_code.FizzBuzz.Atomic.{
  Local, loading, printing, adding, returned, Polling, new_polling, run,
}
use my_cpp_code.FizzBuzz.Atomic.Invariant.{Holds, said_by, run-Inv, new_polling-Inv}

said_over :
    (n : ℕ) (s : Polling) (q : Role) (l : Local)
    → s.n ≡ n
    → s.ati ≤ n + 1
    → n < s.ati
    → Holds s q l
    → said_by l s.ati ≡ n
said_over n s q loading size within over h = omega arith
said_over n s q (printing i) size within over h = omega arith
said_over n s q adding size within over h = absurd (ground (arith, h.1))
said_over n s q returned size within over h = omega arith

over_of_returned : (s : Polling) (r : Role) (l : Local) → Holds s r l → l ≡ returned → s.n < s.ati
over_of_returned s r loading h e = cc
over_of_returned s r (printing i) h e = cc
over_of_returned s r adding h e = cc
over_of_returned s r returned h e = h

-- Under every schedule, even one that switches threads between a load and the increment, the
-- output is the game up to the counter, or one word further while the thread in turn is about to
-- add; and once a thread has returned it is the whole game.
pub run-game :
    (n : ℕ) (rs : List Role)
    → let s = run rs (new_polling n) in
      (s.printed ≡ game (said_by (s.local (taker s.ati)) s.ati))
      × ((r : Role) → s.local r ≡ returned → s.printed ≡ game n)
run-game n rs =
    let v = run-Inv n rs (new_polling n) (new_polling-Inv n) in
    let s = run rs (new_polling n) in
    let t = taker s.ati in
    (
      v.said,
      λ r e.
          let over = over_of_returned s r (s.local r) (v.holds r) e in
          v.said
          ∙ ap game (
              said_over n s t (s.local t) v.size v.within (omega (arith, over, v.size))
                (v.holds t)),
    )
