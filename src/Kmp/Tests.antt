-- ===== src/Kmp/Tests.antt =====
-- any/kmp.cpp: concrete patterns.
use my_cpp_code.Common.{ℕ, ◌+◌, ◌<◌, ◌≡◌, refl, arith, List, [], ◌∷◌, none, some, length, Bytes}
use my_cpp_code.Kmp.{get_elem, shorten, prefixes, check_prefix_suffix, init_next, find_from, find}
use my_cpp_code.Kmp.Search.{init_next-stuck}
use my_cpp_code.Kmp.Border.{Longest}
use my_cpp_code.Kmp.Prefix.{check_prefix_suffix-Longest}
use mathlib.Core.Option.{bind}

abbrev abab : Bytes
abab = 97 ∷ 98 ∷ 97 ∷ 98 ∷ []

abbrev xabab : Bytes
xabab = 120 ∷ 97 ∷ 98 ∷ 97 ∷ 98 ∷ []

table_of_abab : check_prefix_suffix abab ≡ some (0 ∷ 0 ∷ 1 ∷ 2 ∷ [])
unfolding check_prefix_suffix prefixes shorten bind
table_of_abab = refl

check_prefix_suffix-Longest_example :
    (nxt : List ℕ) × (check_prefix_suffix abab ≡ some nxt)
    × (length nxt ≡ length abab)
    × ((t : ℕ) → t < length abab → Longest abab (t + 1) (get_elem nxt t))
check_prefix_suffix-Longest_example = check_prefix_suffix-Longest abab

init_next-stuck_example : init_next 9 (97 ∷ 97 ∷ 98 ∷ []) ≡ none
init_next-stuck_example = init_next-stuck 9 97 98 [] (omega arith)

abbrev ab : Bytes
ab = 97 ∷ 98 ∷ []

abbrev aab : Bytes
aab = 97 ∷ 97 ∷ 98 ∷ []

-- `find` skips the byte at which a match breaks off.
ab_not_found : find aab ab (0 ∷ 0 ∷ []) 0 ≡ none
unfolding find find_from
ab_not_found = refl
