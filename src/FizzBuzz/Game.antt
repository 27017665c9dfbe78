-- ===== src/FizzBuzz/Game.antt =====
-- LT_1195_fizzbuzz.cpp: the words of the game, and whose turn it is.
use my_cpp_code.Common.{
  ℕ, zero, suc, ◌+◌, ◌-◌, ◌%◌, ◌<◌, ◌≡◌, refl, arith, true, List, [], ◌∷◌, ◌++◌, ◌==◌,
  if◌then◌else◌,
}
use my_cpp_code.FizzBuzz.{
  Role, fizz, buzz, fizzbuzz, number, Word, fizz_word, buzz_word, fizzbuzz_word, number_word, takes,
  word,
}

-- The words of the game, as its rules give them.
abbrev pub word_at : ℕ → Word
word_at i =
    if i % 15 == 0
    then fizzbuzz_word
    else if i % 3 == 0
    then fizz_word
    else if i % 5 == 0
    then buzz_word
    else number_word i

abbrev pub game : ℕ → List Word
game zero = []
game (suc i) = game i ++ (word_at (suc i) ∷ [])

-- The thread whose turn it is.
abbrev pub taker : ℕ → Role
taker i =
    if i % 3 == 0
    then (if i % 5 == 0 then fizzbuzz else fizz)
    else if i % 5 == 0
    then buzz
    else number

pub takes-taker : (i : ℕ) → takes (taker i) i ≡ true
unfolding takes
takes-taker i = ground arith

pub taker_unique : (r : Role) (i : ℕ) → takes r i ≡ true → taker i ≡ r
unfolding takes
taker_unique fizz i h = ground arith
taker_unique buzz i h = ground arith
taker_unique fizzbuzz i h = ground arith
taker_unique number i h = ground arith

pub word-takes : (r : Role) (i : ℕ) → takes r i ≡ true → word r i ≡ word_at i
unfolding takes word
word-takes fizz i h = ground arith
word-takes buzz i h = ground arith
word-takes fizzbuzz i h = ground arith
word-takes number i h = ground arith

pub game_pos : (i : ℕ) → 0 < i → game (i - 1) ++ (word_at i ∷ []) ≡ game (i + 1 - 1)
game_pos zero h = absurd (omega arith)
game_pos (suc i) h =
    let e : suc i + 1 - 1 ≡ suc i = omega arith in
    let d : suc i - 1 ≡ i = omega arith in rw (e, d) refl
