-- ===== src/FooBar/Alternate.antt =====
-- LT_1115_foobar.cpp: the words that the program means to print.
use my_cpp_code.Common.{
  ℕ, zero, suc, ◌+◌, ◌%◌, ◌≡◌, refl, arith, true, false, List, [], ◌∷◌, ◌++◌, ◌==◌, if◌then◌else◌,
}
use my_cpp_code.FooBar.{Word, foo_word, bar_word}

-- The first words of `foobarfoobar…`.
abbrev pub alternate : ℕ → List Word
alternate zero = []
alternate (suc k) = alternate k ++ ((if k % 2 == 0 then foo_word else bar_word) ∷ [])

pub alternate-foo :
    (k a : ℕ) (l : List Word)
    → k ≡ a + a
    → l ≡ alternate k
    → l ++ (foo_word ∷ []) ≡ alternate (suc k)
alternate-foo k a l e h = let even : (k % 2 == 0) ≡ true = ground arith in rw (even, h) refl

pub alternate-bar :
    (k a : ℕ) (l : List Word)
    → k ≡ a + a + 1
    → l ≡ alternate k
    → l ++ (bar_word ∷ []) ≡ alternate (suc k)
alternate-bar k a l e h = let odd : (k % 2 == 0) ≡ false = ground arith in rw (odd, h) refl
