-- ===== src/Parallel/FindAsync.antt =====
-- parallel_find_accu_async_for_each.cpp, `parallel_find_async`: the calls that share a flag.
--
-- `hit` tells whether the element at an offset equals `need`. A call is named by the way to it from the
-- first one: `false` leads to the half that std::async runs, at whatever time, `true` to the other. A
-- load of the flag, a comparison and a store are steps of their own.
pub mod Invariant
pub mod Result
use my_cpp_code.Common.{
  ℕ, zero, suc, ◌+◌, ◌-◌, ◌*◌, ◌/◌, Bool, true, false, ◌||◌, List, [], ◌∷◌, Option, none, some, ltb,
  ◌==◌, if◌then◌else◌,
}
use mathlib.Core.Option.{bind}

-- Where the loop of a call on a short range is: before its condition, in its body, before the store of
-- the flag, or returned with a position.
pub data Status : Type 0 where
  testing comparing storing : Status
  finished : ℕ → Status

-- A call that loops from `fst` to `lst`, or one that has cut its range at a position.
pub data Call : Type 0 where
  scan : (fst lst : ℕ) → Status → Call
  cut : ℕ → Call → Call → Call

unfoldable pub calls : ℕ → ℕ → ℕ → Option Call
unfolding bind
calls zero fst lst = none
calls (suc fuel) fst lst =
    let size = lst - fst in
    let md = fst + size / 2 in
    elim (ltb size (2 * 25)) [
      | true ↦ some (scan fst lst testing)
      | false ↦
          bind (calls fuel fst md)
            λ own. bind (calls fuel md lst) λ asynchronous. some (cut md own asynchronous)
    ]

-- The next step of a loop, with the flag.
unfoldable pub advance : (ℕ → Bool) → (fst lst : ℕ) → Status → Bool → Call × Bool
advance hit fst lst testing done =
    if fst == lst || done
    then (scan fst lst (finished lst), done)
    else (scan fst lst comparing, done)
advance hit fst lst comparing done =
    if hit fst then (scan fst lst storing, done) else (scan (fst + 1) lst testing, done)
advance hit fst lst storing done = (scan fst lst (finished fst), true)
advance hit fst lst (finished p) done = (scan fst lst (finished p), done)

unfoldable pub step : (ℕ → Bool) → List Bool → Call → Bool → Call × Bool
unfolding advance
step hit way (scan fst lst v) done = advance hit fst lst v done
step hit [] (cut md own other) done = (cut md own other, done)
step hit (true ∷ way) (cut md own other) done =
    let (c, flag) = step hit way own done in (cut md c other, flag)
step hit (false ∷ way) (cut md own other) done =
    let (c, flag) = step hit way other done in (cut md own c, flag)

-- The calls run in the order of a schedule.
unfoldable pub run : (ℕ → Bool) → List (List Bool) → Call → Bool → Call × Bool
unfolding step
run hit [] c done = (c, done)
run hit (way ∷ schedule) c done = let (d, flag) = step hit way c done in run hit schedule d flag

abbrev pub position : Status → Option ℕ
position (finished p) = some p
position _ = none

-- What a call returns, when it has: `res.get()` is asked for only where the own half found nothing.
unfoldable pub answer : Call → Option ℕ
unfolding bind
answer (scan fst lst v) = position v
answer (cut md own other) =
    let res = answer other in bind (answer own) λ res2. if res2 == md then res else some res2

unfoldable pub parallel_find_async : (ℕ → Bool) → ℕ → ℕ → List (List Bool) → Option ℕ
unfolding calls run answer bind
parallel_find_async hit fuel size schedule =
    bind (calls fuel 0 size) λ c. answer (run hit schedule c false).0
