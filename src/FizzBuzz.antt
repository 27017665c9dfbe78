-- ===== src/FizzBuzz.antt =====
-- any/concurrency/LT_1195_fizzbuzz.cpp: `FizzBuzz`, whose four threads share a counter under a mutex
-- and a condition variable.
--
-- A role is the thread that runs one of the four methods. What a thread does under the mutex is one
-- step. A thread is `waiting` while it is blocked in `cv.wait`, and `ready` once it has been notified.
pub mod Game
pub mod Progress
pub mod Atomic
mod Tests
use my_cpp_code.Common.{
  ℕ, zero, suc, ◌+◌, ◌%◌, Bool, true, false, not, ◌&&◌, ◌||◌, List, [], ◌∷◌, ◌++◌, Option, none,
  some, ltb, ◌==◌, if◌then◌else◌,
}

pub data Role : Type 0 where
  fizz buzz fizzbuzz number : Role

pub data Word : Type 0 where
  fizz_word buzz_word fizzbuzz_word : Word
  number_word : ℕ → Word

-- The second half of each thread's predicate.
unfoldable pub takes : Role → ℕ → Bool
takes fizz idx = idx % 3 == 0 && not (idx % 5 == 0)
takes buzz idx = not (idx % 3 == 0) && idx % 5 == 0
takes fizzbuzz idx = idx % 3 == 0 && idx % 5 == 0
takes number idx = not (idx % 3 == 0) && not (idx % 5 == 0)

unfoldable pub word : Role → ℕ → Word
word fizz idx = fizz_word
word buzz idx = buzz_word
word fizzbuzz idx = fizzbuzz_word
word number idx = number_word idx

pub data Status : Type 0 where
  ready waiting returned : Status

pub record FizzBuzz : Type 0 where
  pub n : ℕ
  pub idx : ℕ
  pub status : Role → Status
  pub printed : List Word

unfoldable pub new_fizzbuzz : ℕ → FizzBuzz
new_fizzbuzz n = record { n = n; idx = 1; status = λ r. ready; printed = [] }

unfoldable pub same_role : Role → Role → Bool
same_role fizz fizz = true
same_role buzz buzz = true
same_role fizzbuzz fizzbuzz = true
same_role number number = true
same_role _ _ = false

abbrev pub set_status : Role → Status → (Role → Status) → Role → Status
set_status r v status q = if same_role q r then v else status q

abbrev pub woken : Status → Status
woken ready = ready
woken waiting = ready
woken returned = returned

-- The body of the `while` loop of the method that `r` runs, from the lock to its release: the thread
-- waits, returns, or prints and wakes the others. `wake` is the thread that `notify_one` chooses.
unfoldable pub turn : Role → Option Role → FizzBuzz → FizzBuzz
turn r wake s =
    if ltb s.n s.idx
    then record s {
      status =
          set_status r returned
            (elim wake [ none ↦ s.status | some q ↦ set_status q (woken (s.status q)) s.status ]);
    }
    else if takes r s.idx
    then record s {
      idx = s.idx + 1;
      status = λ q. woken (s.status q);
      printed = s.printed ++ (word r s.idx ∷ []);
    }
    else record s { status = set_status r waiting s.status }
