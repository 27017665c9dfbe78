-- ===== src/QuickSort/Tests.antt =====
-- The two quicksorts, run with a partition that keeps the order of either part.
use my_cpp_code.Common.{
  ℕ, ◌≡◌, arith, Bool, true, false, List, [], ◌∷◌, ◌++◌, ltb, inl, inr, Bool-cases, if◌then◌else◌,
}
use my_cpp_code.QuickSort.{test_quick_sort_sequence, quick_sort_parallel}
use my_cpp_code.QuickSort.Sorted.{Partitions, WeakOrder, IsResult, quick_sorts-IsResult}
use mathlib.Core.List.{Mem, Perm, perm_middle, forall_mem-cons, not-mem-nil}
use mathlib.Core.List.Perm

stable : (ℕ → Bool) → List ℕ → List ℕ × List ℕ
stable p [] = ([], [])
stable p (x ∷ l) =
    let rest = stable p l in if p x then (x ∷ rest.0, rest.1) else (rest.0, x ∷ rest.1)

stable-reorders : (p : ℕ → Bool) (l : List ℕ) → Perm ((stable p l).0 ++ (stable p l).1) l
unfolding stable
stable-reorders p [] = Perm.rfl
stable-reorders p (x ∷ l) = elim (Bool-cases (p x)) [
  | inl e ↦ rw (e, stable) (Perm.cons x (stable-reorders p l))
  | inr e ↦
      rw (e, stable)
        (Perm.trans (perm_middle (stable p l).0 (stable p l).1) (Perm.cons x (stable-reorders p l)))
]

stable-front : (p : ℕ → Bool) (l : List ℕ) (t : ℕ) → Mem t (stable p l).0 → p t ≡ true
unfolding stable
stable-front p [] = λ t m. absurd (not-mem-nil m)
stable-front p (x ∷ l) = elim (Bool-cases (p x)) [
  | inl e ↦ rw (e, stable) ((forall_mem-cons (λ b. hlevel)).1 (e, stable-front p l))
  | inr e ↦ rw (e, stable) (stable-front p l)
]

stable-back : (p : ℕ → Bool) (l : List ℕ) (t : ℕ) → Mem t (stable p l).1 → p t ≡ false
unfolding stable
stable-back p [] = λ t m. absurd (not-mem-nil m)
stable-back p (x ∷ l) = elim (Bool-cases (p x)) [
  | inl e ↦ rw (e, stable) (stable-back p l)
  | inr e ↦ rw (e, stable) ((forall_mem-cons (λ b. hlevel)).1 (e, stable-back p l))
]

stable-Partitions : Partitions stable
stable-Partitions = record { reorders = stable-reorders; front = stable-front; back = stable-back }

ltb-WeakOrder : WeakOrder ltb
ltb-WeakOrder = record { asym = λ a b h. ground arith; trans = λ a b c h k. ground arith }

abbrev five : List ℕ
five = 3 ∷ 1 ∷ 4 ∷ 1 ∷ 5 ∷ []

quick_sorts-IsResult_example :
    IsResult ltb five (test_quick_sort_sequence ltb stable 5 five)
    × (quick_sort_parallel ltb stable 5 five ≡ test_quick_sort_sequence ltb stable 5 five)
quick_sorts-IsResult_example =
    quick_sorts-IsResult ltb stable ltb-WeakOrder stable-Partitions 5 five (omega arith)

ltb_total : (a b : ℕ) → ltb a b ≡ false → ltb b a ≡ false → a ≡ b
ltb_total a b h k = ground arith
