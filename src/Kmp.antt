-- ===== src/Kmp.antt =====
-- any/kmp.cpp: the prefix function, and the class that searches a pattern.
--
-- `get_elem` is the indexing of a string or a vector, 0 past its end, where the program does not read;
-- `set` is the assignment to an element. A loop that has no fuel left is `none`.
pub mod Border
pub mod Prefix
pub mod Search
mod Tests
use my_cpp_code.Common.{
  ℕ, zero, suc, ◌+◌, ◌-◌, Bool, true, false, not, ◌&&◌, List, [], ◌∷◌, Option, none, some, ltb,
  ◌==◌, if◌then◌else◌, length, replicate, drop, Bytes,
}
use mathlib.Core.Option.{bind}

abbrev pub get_elem : List ℕ → ℕ → ℕ
get_elem [] i = 0
get_elem (x ∷ xs) zero = x
get_elem (x ∷ xs) (suc i) = get_elem xs i

abbrev pub set : List ℕ → ℕ → ℕ → List ℕ
set [] i v = []
set (x ∷ xs) zero v = v ∷ xs
set (x ∷ xs) (suc i) v = x ∷ set xs i v

-- The `while` loop of `checkPrefixSuffix`.
unfoldable pub shorten : ℕ → Bytes → List ℕ → ℕ → ℕ → Option ℕ
shorten zero str nxt j i = none
shorten (suc fuel) str nxt j i = elim (not (get_elem str i == get_elem str j) && ltb 0 i) [
  | true ↦ shorten fuel str nxt j (get_elem nxt (i - 1))
  | false ↦ some i
]

-- Its `for` loop, from `j` on.
unfoldable pub prefixes : ℕ → Bytes → List ℕ → ℕ → ℕ → Option (List ℕ)
unfolding shorten bind
prefixes zero str nxt i j = some nxt
prefixes (suc rounds) str nxt i j = bind (shorten (length str) str nxt j i) λ i'.
    elim (get_elem str i' == get_elem str j) [
      | true ↦ prefixes rounds str (set nxt j (i' + 1)) (i' + 1) (j + 1)
      | false ↦ prefixes rounds str (set nxt j 0) i' (j + 1)
    ]

unfoldable pub check_prefix_suffix : Bytes → Option (List ℕ)
unfolding prefixes
check_prefix_suffix str = prefixes (length str - 1) str (replicate (length str) 0) 0 1

-- The class `KMP`: the two loops of `initNext`.
unfoldable pub shorten_next : ℕ → Bytes → List ℕ → ℕ → ℕ → Option ℕ
shorten_next zero p nxt j i = none
shorten_next (suc fuel) p nxt j i = elim (not (get_elem p i == get_elem p j) && ltb 0 i) [
  | true ↦ shorten_next fuel p nxt j (get_elem nxt i)
  | false ↦ some i
]

unfoldable pub next_loop : ℕ → ℕ → Bytes → List ℕ → ℕ → ℕ → Option (List ℕ)
unfolding shorten_next bind
next_loop fuel zero p nxt i j = some nxt
next_loop fuel (suc rounds) p nxt i j = bind (shorten_next fuel p nxt j i) λ i'.
    elim (get_elem p i' == get_elem p j) [
      | true ↦ next_loop fuel rounds p (set nxt j (i' + 1)) (i' + 1) (j + 1)
      | false ↦ next_loop fuel rounds p nxt i' (j + 1)
    ]

unfoldable pub init_next : ℕ → Bytes → Option (List ℕ)
unfolding next_loop
init_next fuel p = next_loop fuel (length p - 1) p (replicate (length p) 0) 0 1

-- The loop of `find`, from `i` on; `none` is the result -1.
unfoldable pub find_from : Bytes → Bytes → List ℕ → ℕ → ℕ → Option ℕ
find_from [] p nxt i j = none
find_from (c ∷ s) p nxt i j = elim (c == get_elem p j) [
  | true ↦ elim (j + 1 == length p) [
    | true ↦ some (i + 1 - length p)
    | false ↦ find_from s p nxt (i + 1) (j + 1)
  ]
  | false ↦ find_from s p nxt (i + 1) (get_elem nxt j)
]

unfoldable pub find : Bytes → Bytes → List ℕ → ℕ → Option ℕ
unfolding find_from
find s p nxt ist = find_from (drop ist s) p nxt ist 0
