-- ===== src/WorkStealing/Counts.antt =====
-- thread_pool.cpp: how often a task stands in the queues that a step of `thread_pool_6` changes.
use my_cpp_code.Common.{
  ℕ, zero, suc, ◌+◌, ◌<◌, ◌≡◌, ◌≢◌, refl, ap, arith, List, [], ◌∷◌, ◌++◌, Option, none, some, ◌==◌,
  if◌then◌else◌, Bool-cases, inl, inr,
}
use my_cpp_code.SafeQueue.Interface.{front, behind}
use my_cpp_code.WorkStealing.{try_pop_front, try_steal}

unfoldable pub count : ℕ → List ℕ → ℕ
count t [] = 0
count t (x ∷ xs) = (if x == t then 1 else 0) + count t xs

pub count-append : (t : ℕ) (xs ys : List ℕ) → count t (xs ++ ys) ≡ count t xs + count t ys
unfolding count
count-append t [] ys = omega arith
count-append t (x ∷ xs) ys = omega (arith, count-append t xs ys)

abbrev pub one : ℕ → Option ℕ → ℕ
one t none = 0
one t (some x) = if x == t then 1 else 0

unfoldable pub sum_to : ℕ → (ℕ → ℕ) → ℕ
sum_to zero f = 0
sum_to (suc n) f = sum_to n f + f n

pub sum_to_next : (n : ℕ) (f : ℕ → ℕ) → sum_to (n + 1) f ≡ sum_to n f + f n
unfolding sum_to
sum_to_next n f = let same : n + 1 ≡ suc n = omega arith in ap (λ m. sum_to m f) same

pub sum_to_same : (n : ℕ) (f g : ℕ → ℕ) → ((i : ℕ) → i < n → f i ≡ g i) → sum_to n f ≡ sum_to n g
unfolding sum_to
sum_to_same zero f g h = refl
sum_to_same (suc n) f g h =
    omega (arith, sum_to_same n f g (λ i l. h i (omega arith)), h n (omega arith))

-- The sum when one summand changes.
pub sum_to_change :
    (n k : ℕ) (f g : ℕ → ℕ)
    → k < n
    → ((i : ℕ) → i ≢ k → g i ≡ f i)
    → sum_to n g + f k ≡ sum_to n f + g k
unfolding sum_to
sum_to_change zero k f g l h = absurd (omega arith)
sum_to_change (suc n) k f g l h = elim (Bool-cases (k == n)) [
  | inl last ↦
      let same : k ≡ n = ground arith in
      let rest = sum_to_same n g f (λ i small. h i (λ e. omega arith)) in
      rw same (omega (arith, rest))
  | inr before ↦ omega (arith, sum_to_change n k f g (ground arith) h, h n (λ e. ground arith))
]

pub try_pop_front-count :
    (t : ℕ) (q : List ℕ) → count t (try_pop_front q).0 + one t (try_pop_front q).1 ≡ count t q
unfolding try_pop_front count
try_pop_front-count t [] = refl
try_pop_front-count t (x ∷ q) = omega arith

pub try_steal-count :
    (t : ℕ) (q : List ℕ) → count t (try_steal q).0 + one t (try_steal q).1 ≡ count t q
unfolding try_steal count
try_steal-count t [] = refl
try_steal-count t (x ∷ []) = omega arith
try_steal-count t (x ∷ y ∷ q) = omega (arith, try_steal-count t (y ∷ q))

pub halves : (t : ℕ) (l : List ℕ) → count t (behind l) + one t (front l) ≡ count t l
unfolding count
halves t [] = refl
halves t (x ∷ l) = omega arith

pub lone : (t task : ℕ) → count t (task ∷ []) ≡ (if task == t then 1 else 0)
unfolding count
lone t task = omega arith
