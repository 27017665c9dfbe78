-- ===== src/Spreadsheet/Heap.antt =====
-- Spreadsheet.cpp: the loops of the copy constructor on the heap.
use my_cpp_code.Common.{
  ℕ, zero, suc, ◌+◌, ◌≤◌, ◌<◌, ◌≡◌, ◌≢◌, refl, sym, ◌∙◌, arith, ◌&&◌, Option, some, ltb, leb,
  lt→ltb, ◌==◌, ==_iff, if◌then◌else◌, Bool-cases, inl, inr, ◌⊎◌,
}
use my_cpp_code.Spreadsheet.{Block, update, load, store, with_cell, copy_column, copy_columns}
use mathlib.Core.Option.{bind}

module _ {ℓ} {A : Type ℓ} where
  pub update_cases :
      (k n : ℕ) (a : Option A) (f : ℕ → Option A) (x : A)
      → update k a f n ≡ some x
      → ((n ≡ k) × (a ≡ some x)) ⊎ ((n ≢ k) × (f n ≡ some x))
  update_cases k n a f x e = elim (Bool-cases (n == k)) [
    | inl same ↦ inl ((==_iff n k).0 same, rw same at e)
    | inr other ↦ inr ((λ h. ground arith), rw other at e)
  ]

  pub update_self : (k : ℕ) (a : A) (f : ℕ → A) → update k a f k ≡ a
  update_self k a f = rw ((==_iff k k).1 refl) refl

  pub update_other : (k n : ℕ) (a : A) (f : ℕ → A) → n ≢ k → update k a f n ≡ f n
  update_other k n a f h = elim (Bool-cases (n == k)) [
    | inl same ↦ absurd (h ((==_iff n k).0 same))
    | inr other ↦ rw other refl
  ]

module _ {ℓ} {C : Type ℓ} where
  -- Only the block at `q` has changed, to cells `new`, and it keeps its size.
  pub record Wrote (heap next : ℕ → Option (Block C)) (q : ℕ) (b : Block C) (new : ℕ → ℕ → C)
      : Type ℓ where
    pub block : Block C
    pub there : next q ≡ some block
    pub width : block.width ≡ b.width
    pub height : block.height ≡ b.height
    pub cell : (x y : ℕ) → block.cell x y ≡ new x y
    pub rest : (r : ℕ) → r ≢ q → next r ≡ heap r

  pub load_lem :
      (p x y : ℕ) (heap : ℕ → Option (Block C)) (b : Block C)
      → heap p ≡ some b
      → x < b.width
      → y < b.height
      → load (some p) x y heap ≡ some (b.cell x y)
  unfolding load bind
  load_lem p x y heap b e h k = rw (e, lt→ltb x b.width h, lt→ltb y b.height k) refl

  pub store_lem :
      (p x y : ℕ) (c : C) (heap : ℕ → Option (Block C)) (b : Block C)
      → heap p ≡ some b
      → x < b.width
      → y < b.height
      → store (some p) x y c heap ≡ some (update p (some (with_cell x y c b)) heap)
  unfolding store bind
  store_lem p x y c heap b e h k = rw (e, lt→ltb x b.width h, lt→ltb y b.height k) refl

  -- The cells after `left` rounds of the inner loop from row `j` on.
  abbrev pub column_from : (left i j : ℕ) → (from to : ℕ → ℕ → C) → ℕ → ℕ → C
  column_from left i j from to x y =
      if (x == i) && (leb j y && ltb y (j + left)) then from x y else to x y

  column-zero :
      (i j : ℕ) (from to : ℕ → ℕ → C) (x y : ℕ) → column_from zero i j from to x y ≡ to x y
  column-zero i j from to x y = ground arith

  column-suc :
      (left i j : ℕ) (from to : ℕ → ℕ → C) (x y : ℕ)
      → column_from left i (j + 1) from (λ a b. if a == i && b == j then from i j else to a b) x y
        ≡ column_from (suc left) i j from to x y
  column-suc left i j from to x y = ground arith

  copy_column_step :
      (left i j p q : ℕ) (heap : ℕ → Option (Block C)) (a b : Block C) (next : ℕ → Option (Block C))
      → heap p ≡ some a
      → heap q ≡ some b
      → i < a.width
      → i < b.width
      → j < a.height
      → j < b.height
      → copy_column left
          (some p)
          (some q)
          i
          (j + 1)
          (update q (some (with_cell i j (a.cell i j) b)) heap)
        ≡ some next
      → copy_column (suc left) (some p) (some q) i j heap ≡ some next
  unfolding copy_column bind
  copy_column_step left i j p q heap a b next e f l m u n run =
      rw (load_lem p i j heap a e l u, store_lem q i j (a.cell i j) heap b f m n) run

  pub copy_column_lem :
      (left i j p q : ℕ) (heap : ℕ → Option (Block C)) (a b : Block C)
      → heap p ≡ some a
      → heap q ≡ some b
      → p ≢ q
      → i < a.width
      → i < b.width
      → j + left ≤ a.height
      → j + left ≤ b.height
      → (next : ℕ → Option (Block C)) × (copy_column left (some p) (some q) i j heap ≡ some next)
        × Wrote heap next q b (column_from left i j a.cell b.cell)
  unfolding copy_column
  copy_column_lem zero i j p q heap a b e f d l m u n = (
    heap,
    refl,
    record {
      block = b;
      there = f;
      width = refl;
      height = refl;
      cell = λ x y. sym (column-zero i j a.cell b.cell x y);
      rest = λ r h. refl;
    },
  )
  copy_column_lem (suc left) i j p q heap a b e f d l m u n =
      let c = a.cell i j in
      let heap' = update q (some (with_cell i j c b)) heap in
      let (next, run, w) =
        copy_column_lem left i (j + 1) p q heap' a (with_cell i j c b)
          (update_other q p _ heap d ∙ e) (update_self q _ heap) d l m (omega arith)
          (omega arith) in
      (
        next,
        copy_column_step left i j p q heap a b next e f l m (omega arith) (omega arith) run,
        record {
          block = w.block;
          there = w.there;
          width = w.width;
          height = w.height;
          cell = λ x y. w.cell x y ∙ column-suc left i j a.cell b.cell x y;
          rest = λ r h. w.rest r h ∙ update_other q r _ heap h;
        },
      )

  -- The cells after `left` rounds of the outer loop from column `i` on.
  abbrev pub columns_from : (left height i : ℕ) → (from to : ℕ → ℕ → C) → ℕ → ℕ → C
  columns_from left height i from to x y =
      if (leb i x && ltb x (i + left)) && ltb y height then from x y else to x y

  columns-suc :
      (left height i : ℕ) (from to mid : ℕ → ℕ → C) (x y : ℕ)
      → mid x y ≡ column_from height i 0 from to x y
      → columns_from left height (i + 1) from mid x y ≡ columns_from (suc left) height i from to x y
  columns-suc left height i from to mid x y h = ground arith

  columns-zero :
      (height i : ℕ) (from to : ℕ → ℕ → C) (x y : ℕ)
      → columns_from zero height i from to x y ≡ to x y
  columns-zero height i from to x y = ground arith

  copy_columns_step :
      (left height i : ℕ) (from to : Option ℕ) (heap mid next : ℕ → Option (Block C))
      → copy_column height from to i 0 heap ≡ some mid
      → copy_columns left height from to (i + 1) mid ≡ some next
      → copy_columns (suc left) height from to i heap ≡ some next
  unfolding copy_columns bind
  copy_columns_step left height i from to heap mid next e run = rw e run

  pub copy_columns_lem :
      (left height i p q : ℕ) (heap : ℕ → Option (Block C)) (a b : Block C)
      → heap p ≡ some a
      → heap q ≡ some b
      → p ≢ q
      → i + left ≤ a.width
      → i + left ≤ b.width
      → height ≤ a.height
      → height ≤ b.height
      → (next : ℕ → Option (Block C)) × (copy_columns left height (some p) (some q) i heap
          ≡ some next)
        × Wrote heap next q b (columns_from left height i a.cell b.cell)
  unfolding copy_columns
  copy_columns_lem zero height i p q heap a b e f d l m u n = (
    heap,
    refl,
    record {
      block = b;
      there = f;
      width = refl;
      height = refl;
      cell = λ x y. sym (columns-zero height i a.cell b.cell x y);
      rest = λ r h. refl;
    },
  )
  copy_columns_lem (suc left) height i p q heap a b e f d l m u n =
      let (mid, first, v) =
        copy_column_lem height i 0 p q heap a b e f d (omega arith) (omega arith) (omega arith)
          (omega arith) in
      let (next, run, w) =
        copy_columns_lem left height (i + 1) p q mid a v.block (v.rest p d ∙ e) v.there d
          (omega arith) (omega (arith, v.width)) u (omega (arith, v.height)) in
      (
        next,
        copy_columns_step left height i (some p) (some q) heap mid next first run,
        record {
          block = w.block;
          there = w.there;
          width = w.width ∙ v.width;
          height = w.height ∙ v.height;
          cell = λ x y.
              w.cell x y ∙ columns-suc left height i a.cell b.cell v.block.cell x y (v.cell x y);
          rest = λ r h. w.rest r h ∙ v.rest r h;
        },
      )
