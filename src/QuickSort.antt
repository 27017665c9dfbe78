-- ===== src/QuickSort.antt =====
-- cpp_concurrency_2nd/cv_promise_future_packaged_task_quick_sort.cpp: the two quicksorts of a list.
--
-- `lt` is the `<` of the elements. `partition` is `std::partition`, with the two ranges that it
-- leaves before and after the iterator it returns. A recursion that has no fuel left is `none`.
pub mod Sorted
mod Tests
use my_cpp_code.Common.{ℕ, zero, suc, Bool, List, [], ◌∷◌, ◌++◌, Option, none, some}
use mathlib.Core.Option.{bind}

module _ {A : Type 0} (lt : A → A → Bool) (partition : (A → Bool) → List A → List A × List A) where
  unfoldable pub test_quick_sort_sequence : ℕ → List A → Option (List A)
  unfolding bind
  test_quick_sort_sequence fuel [] = some []
  test_quick_sort_sequence zero (pivot ∷ input) = none
  test_quick_sort_sequence (suc fuel) (pivot ∷ input) =
      let parts = partition (λ t. lt t pivot) input in
      bind (test_quick_sort_sequence fuel parts.0) λ new_lower.
        bind (test_quick_sort_sequence fuel parts.1)
          λ new_higher. some (new_lower ++ (pivot ∷ new_higher))

  -- The future of the lower part is read after the higher part has been sorted here.
  unfoldable pub quick_sort_parallel : ℕ → List A → Option (List A)
  unfolding bind
  quick_sort_parallel fuel [] = some []
  quick_sort_parallel zero (pivot ∷ input) = none
  quick_sort_parallel (suc fuel) (pivot ∷ input) =
      let parts = partition (λ t. lt t pivot) input in
      let new_lower = quick_sort_parallel fuel parts.0 in
      bind (quick_sort_parallel fuel parts.1)
        λ new_higher. bind new_lower λ lower. some (lower ++ (pivot ∷ new_higher))
