-- ===== src/QuickSort/Sorted.antt =====
-- cv_promise_future_packaged_task_quick_sort.cpp: the quicksorts sort, whatever way the partition
-- orders the two ranges.
use my_cpp_code.Common.{
  ℕ, zero, suc, ◌+◌, ◌≤◌, ◌≡◌, refl, ap, ap₂, sym, ◌∙◌, arith, Bool, true, false, List, [], ◌∷◌,
  ◌++◌, Option, some, inl, inr, Bool-cases, length, length-append, if◌then◌else◌,
}
use my_cpp_code.QuickSort.{test_quick_sort_sequence, quick_sort_parallel}
use mathlib.Core.Logic.{∥∥₁_elim}
use mathlib.Core.Option.{bind}
use mathlib.Core.List.{
  Mem, Perm, Permᴰ, Pairwise, Pairwise-append, perm_middle, mem-cons_self, forall_mem-cons,
  not-mem-nil,
}
use mathlib.Core.List.Pairwise
use mathlib.Core.List.Perm
use native.Mathlib.Nat.{ℕ_set}

-- What the standard says of `std::partition`: it only reorders, and the elements in front of the
-- iterator that it returns are those that satisfy the predicate.
pub record Partitions {ℓ} {A : Type ℓ} (partition : (A → Bool) → List A → List A × List A)
    : Type ℓ where
  pub reorders : (p : A → Bool) (l : List A) → Perm ((partition p l).0 ++ (partition p l).1) l
  pub front : (p : A → Bool) (l : List A) (t : A) → Mem t (partition p l).0 → p t ≡ true
  pub back : (p : A → Bool) (l : List A) (t : A) → Mem t (partition p l).1 → p t ≡ false

-- A strict weak order, which sorting by `<` asks for.
pub record WeakOrder {ℓ} {A : Type ℓ} (lt : A → A → Bool) : Type ℓ where
  pub asym : (a b : A) → lt a b ≡ true → lt b a ≡ false
  pub trans : (a b c : A) → lt b a ≡ false → lt c b ≡ false → lt c a ≡ false

pub length-Permᴰ : {A : Type 0} {l r : List A} → Permᴰ l r → length l ≡ length r
length-Permᴰ Permᴰ.nil = refl
length-Permᴰ (Permᴰ.cons e p) = ap suc (length-Permᴰ p)
length-Permᴰ (Permᴰ.swap e f) = refl
length-Permᴰ (Permᴰ.trans p q) = length-Permᴰ p ∙ length-Permᴰ q

pub length-Perm : {A : Type 0} {l r : List A} → Perm l r → length l ≡ length r
length-Perm {l} {r} p = ∥∥₁_elim p (ℕ_set (length l) (length r)) length-Permᴰ

module _ {A : Type 0} (lt : A → A → Bool) where
  -- No element is less than one before it.
  abbrev pub IsSorted : List A → Type 0
  IsSorted = Pairwise (λ a b. lt b a ≡ false)

  -- `result` is a sorted permutation of `l`.
  abbrev pub IsResult : List A → Option (List A) → Type 0
  IsResult l result = (r : List A) × (result ≡ some r) × Perm r l × IsSorted r

  -- Two sorted lists around a pivot.
  around :
      WeakOrder lt
      → (lower higher : List A) (pivot : A) → IsSorted lower
      → IsSorted higher
      → ((t : A) → Mem t lower → lt t pivot ≡ true)
      → ((t : A) → Mem t higher → lt t pivot ≡ false)
      → IsSorted (lower ++ (pivot ∷ higher))
  around o lower higher pivot sl sh below above = (Pairwise-append (λ a b. hlevel)).1 (
    sl,
    Pairwise.cons above sh,
    λ a m.
        let small = o.asym a pivot (below a m) in
        (forall_mem-cons (λ x. hlevel)).1 (small, λ b n. o.trans a pivot b small (above b n)),
  )

  insert : A → List A → List A
  insert x [] = x ∷ []
  insert x (y ∷ l) = if lt y x then y ∷ insert x l else x ∷ y ∷ l

  -- The reference: insertion sort.
  unfoldable pub insertion_sort : List A → List A
  unfolding insert
  insertion_sort [] = []
  insertion_sort (x ∷ l) = insert x (insertion_sort l)

  insert-Perm : (x : A) (l : List A) → Perm (insert x l) (x ∷ l)
  unfolding insert
  insert-Perm x [] = Perm.rfl
  insert-Perm x (y ∷ l) = elim (Bool-cases (lt y x)) [
    | inl e ↦ rw (e, insert) (Perm.trans (Perm.cons y (insert-Perm x l)) (Perm.swap x y l))
    | inr e ↦ rw (e, insert) Perm.rfl
  ]

  insert-IsSorted : WeakOrder lt → (x : A) (l : List A) → IsSorted l → IsSorted (insert x l)
  unfolding insert
  insert-IsSorted o x [] s = Pairwise.cons (λ b m. absurd (not-mem-nil m)) Pairwise.nil
  insert-IsSorted o x (y ∷ l) (Pairwise.cons h s) = elim (Bool-cases (lt y x)) [
    | inl e ↦
        let first = (forall_mem-cons (λ b. hlevel)).1 (o.asym y x e, h) in
        rw (e, insert)
          (Pairwise.cons (λ b m. first b ((Perm.mem_iff (insert-Perm x l)).0 m))
            (insert-IsSorted o x l s))
    | inr e ↦
        let first = (forall_mem-cons (λ b. hlevel)).1 (e, λ b m. o.trans x y b e (h b m)) in
        rw (e, insert) (Pairwise.cons first (Pairwise.cons h s))
  ]

  insertion_sort-Perm : (l : List A) → Perm (insertion_sort l) l
  unfolding insertion_sort
  insertion_sort-Perm [] = Perm.rfl
  insertion_sort-Perm (x ∷ l) =
      Perm.trans (insert-Perm x (insertion_sort l)) (Perm.cons x (insertion_sort-Perm l))

  insertion_sort-IsSorted : WeakOrder lt → (l : List A) → IsSorted (insertion_sort l)
  unfolding insertion_sort
  insertion_sort-IsSorted o [] = Pairwise.nil
  insertion_sort-IsSorted o (x ∷ l) =
      insert-IsSorted o x (insertion_sort l) (insertion_sort-IsSorted o l)

  not_less_self : WeakOrder lt → (a : A) → lt a a ≡ false
  not_less_self o a = elim (Bool-cases (lt a a)) [ inl e ↦ o.asym a a e | inr e ↦ e ]

  first_le :
      (x y : A) (l : List A) → lt x x ≡ false → IsSorted (x ∷ l) → Mem y (x ∷ l) → lt y x ≡ false
  first_le x y l e (Pairwise.cons h s) m = (forall_mem-cons (λ b. hlevel)).1 (e, h) y m

  -- Where equivalent elements are equal, a list has one sorted permutation.
  sorted_unique :
      WeakOrder lt
      → ((a b : A) → lt a b ≡ false → lt b a ≡ false → a ≡ b)
      → (l r : List A) → Perm l r
      → IsSorted l
      → IsSorted r
      → l ≡ r
  sorted_unique o same [] r p sl sr = Perm.nil-eq p
  sorted_unique o same (x ∷ l) [] p sl sr = Perm.eq-nil p
  sorted_unique o same (x ∷ l) (y ∷ r) p sl sr =
      let e : x ≡ y =
        same x y (first_le y x r (not_less_self o y) sr ((Perm.mem_iff p).0 mem-cons_self))
          (first_le x y l (not_less_self o x) sl ((Perm.mem_iff p).1 mem-cons_self)) in
      let q : Perm l r = Perm.cons_inv (Perm.trans p (Perm.cons' (sym e) Perm.rfl)) in
      ap₂ ◌∷◌ e (sorted_unique o same l r q (Pairwise.of_cons sl) (Pairwise.of_cons sr))

module _ {A : Type 0} (lt : A → A → Bool) (partition : (A → Bool) → List A → List A × List A)
    (o : WeakOrder lt) (parts : Partitions partition) where
  -- Two sorted parts make a result.
  rebuild :
      (pivot : A) (input lower higher : List A)
      → let both = partition (λ t. lt t pivot) input in
        Perm lower both.0
        → Perm higher both.1
        → IsSorted lt lower
        → IsSorted lt higher
        → IsResult lt (pivot ∷ input) (some (lower ++ (pivot ∷ higher)))
  rebuild pivot input lower higher pl ph sl sh =
      let test = λ (t : A). lt t pivot in
      (
        lower ++ (pivot ∷ higher),
        refl,
        Perm.trans (perm_middle lower higher)
            (Perm.cons pivot (Perm.trans (Perm.append pl ph) (parts.reorders test input))),
        around lt o lower higher pivot sl sh
            (λ t m. parts.front test input t ((Perm.mem_iff pl).0 m))
            (λ t m. parts.back test input t ((Perm.mem_iff ph).0 m)),
      )

  -- Neither part is longer than the input.
  part_lengths :
      (pivot : A) (input : List A)
      → let both = partition (λ t. lt t pivot) input in length both.0 + length both.1 ≡ length input
  part_lengths pivot input =
      let both = partition (λ t. lt t pivot) input in
      sym (length-append both.0 both.1) ∙ length-Perm (parts.reorders (λ t. lt t pivot) input)

  -- For a strict weak order and any partition that does what the standard says, with fuel for
  -- the length of the list, the sequential quicksort returns a sorted permutation of the list,
  -- and the parallel one returns the same.
  pub quick_sorts-IsResult :
      (fuel : ℕ) (l : List A)
      → length l ≤ fuel
      → IsResult lt l (test_quick_sort_sequence lt partition fuel l)
        × (quick_sort_parallel lt partition fuel l ≡ test_quick_sort_sequence lt partition fuel l)
  unfolding test_quick_sort_sequence quick_sort_parallel bind
  quick_sorts-IsResult zero [] h = (([], refl, Perm.rfl, Pairwise.nil), refl)
  quick_sorts-IsResult (suc fuel) [] h = (([], refl, Perm.rfl, Pairwise.nil), refl)
  quick_sorts-IsResult zero (pivot ∷ input) h = absurd (omega arith)
  quick_sorts-IsResult (suc fuel) (pivot ∷ input) h =
      let both = partition (λ t. lt t pivot) input in
      let sizes = part_lengths pivot input in
      let ((lower, el, pl, sl), ql) = quick_sorts-IsResult fuel both.0 (omega (arith, sizes)) in
      let ((higher, eh, ph, sh), qh) = quick_sorts-IsResult fuel both.1 (omega (arith, sizes)) in
      rw (ql, qh, el, eh, bind) (rebuild pivot input lower higher pl ph sl sh, refl)

  -- For a strict weak order in which equivalent elements are equal, and any partition that does
  -- what the standard says, both quicksorts return what insertion sort returns, with fuel for
  -- the length of the list.
  pub quick_sorts-insertion_sort :
      ((a b : A) → lt a b ≡ false → lt b a ≡ false → a ≡ b)
      → (fuel : ℕ) (l : List A) → length l ≤ fuel
      → (test_quick_sort_sequence lt partition fuel l ≡ some (insertion_sort lt l))
        × (quick_sort_parallel lt partition fuel l ≡ some (insertion_sort lt l))
  quick_sorts-insertion_sort same fuel l h =
      let ((r, e, p, s), q) = quick_sorts-IsResult fuel l h in
      let one : r ≡ insertion_sort lt l =
        sorted_unique lt o same r (insertion_sort lt l)
          (Perm.trans p (Perm.symm (insertion_sort-Perm lt l))) s
          (insertion_sort-IsSorted lt o l) in
      (e ∙ ap some one, q ∙ e ∙ ap some one)
