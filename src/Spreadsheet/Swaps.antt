-- ===== src/Spreadsheet/Swaps.antt =====
-- Spreadsheet.cpp: `swap` and the moves exchange what two sheets own.
use my_cpp_code.Common.{
  ℕ, ◌≡◌, ◌≢◌, refl, sym, ap, ◌∙◌, arith, Option, none, some, ◌==◌, if◌then◌else◌, Bool-cases, inl,
  inr,
}
use my_cpp_code.Spreadsheet.{
  Block, Sheet, World, update, default_sheet, declare, swap, with_cells_of, move_construct,
  move_from,
}
use my_cpp_code.Spreadsheet.Heap.{update_self, update_other}
use my_cpp_code.Spreadsheet.Ownership.{Owns, IsValid}
use mathlib.Core.Option.{bind}
use mathlib.Core.Path.{subst, fun_ext}

-- The variable that held before a swap what `n` holds behind it.
swapped : ℕ → ℕ → ℕ → ℕ
swapped v u n = if n == u then v else if n == v then u else n

swapped_twice : (v u n : ℕ) → swapped v u (swapped v u n) ≡ n
unfolding swapped
swapped_twice v u n = ground arith

abbrev pub after_swap : (v u : ℕ) (s t : Sheet) (sheets : ℕ → Option Sheet) → ℕ → Option Sheet
after_swap v u s t sheets =
    update u (some (with_cells_of s t)) (update v (some (with_cells_of t s)) sheets)

abbrev SameCells : Sheet → Sheet → Type 0
SameCells x y = (x.width ≡ y.width) × (x.height ≡ y.height) × (x.cells ≡ y.cells)

swap_lookup :
    (v u n : ℕ) (s t x : Sheet) (sheets : ℕ → Option Sheet)
    → sheets v ≡ some s
    → sheets u ≡ some t
    → after_swap v u s t sheets n ≡ some x
    → (y : Sheet) × (sheets (swapped v u n) ≡ some y) × SameCells x y
unfolding swapped
swap_lookup v u n s t x sheets e f g = elim (Bool-cases (n == u)) [
  | inl at ↦ (s, rw at e, ground arith)
  | inr off ↦ elim (Bool-cases (n == v)) [
    | inl at ↦ (t, rw (off, at) f, ground arith)
    | inr off' ↦ (x, rw (off, off') (rw (off, off') at g), (refl, refl, refl))
  ]
]

swap_back :
    (v u n : ℕ) (s t y : Sheet) (sheets : ℕ → Option Sheet)
    → sheets v ≡ some s
    → sheets u ≡ some t
    → sheets n ≡ some y
    → (x : Sheet) × (after_swap v u s t sheets (swapped v u n) ≡ some x) × SameCells x y
unfolding swapped
swap_back v u n s t y sheets e f g = elim (Bool-cases (n == u)) [
  | inl at ↦ elim (Bool-cases (v == u)) [
    | inl same ↦ (with_cells_of s t, rw (at, same) refl, ground arith)
    | inr differ ↦ (with_cells_of t s, ground arith, ground arith)
  ]
  | inr off ↦ elim (Bool-cases (n == v)) [
    | inl at ↦ (with_cells_of s t, ground arith, ground arith)
    | inr off' ↦ (y, rw (off, off') (rw (off, off') g), (refl, refl, refl))
  ]
]

commuted :
    (v u n : ℕ)
    → v ≢ u
    → (a b : Option Sheet) (f : ℕ → Option Sheet)
    → update u a (update v b f) n ≡ update v b (update u a f) n
commuted v u n d a b f = ground arith

module _ {ℓ} {C : Type ℓ} where
  Owns-same :
      (heap : ℕ → Option (Block C)) (x y : Sheet) (cells : Option ℕ)
      → x.width ≡ y.width
      → x.height ≡ y.height
      → Owns heap y cells
      → Owns heap x cells
  Owns-same heap x y none e f (a, b, c) = (e ∙ a, f ∙ b, c)
  Owns-same heap x y (some p) e f (b, there, a, c) = (b, there, a ∙ sym e, c ∙ sym f)

  pub swap-IsValid :
      (v u : ℕ) (s t : Sheet) (w : World C)
      → w.sheets v ≡ some s
      → w.sheets u ≡ some t
      → IsValid w
      → (w' : World C) × (swap v u w ≡ some w')
        × IsValid w'
        × (w'.sheets ≡ after_swap v u s t w.sheets)
        × (w'.heap ≡ w.heap)
  unfolding swap bind
  swap-IsValid v u s t w e f h =
      let w' : World C = record w { sheets = after_swap v u s t w.sheets } in
      (
        w',
        rw (e, f) refl,
        record {
          owned = λ n x g.
              let (y, at, same) = swap_lookup v u n s t x w.sheets e f g in
              subst (Owns w.heap x) (sym same.2)
                (Owns-same w.heap x y y.cells same.0 same.1 (h.owned (swapped v u n) y at));
          apart = λ n m p a b g k x y.
              let (a', at, same) = swap_lookup v u n s t a w.sheets e f g in
              let (b', at', same') = swap_lookup v u m s t b w.sheets e f k in
              sym (swapped_twice v u n)
              ∙ ap (swapped v u) (
                  h.apart (swapped v u n) (swapped v u m) p a' b' at at' (sym same.2 ∙ x)
                    (sym same'.2 ∙ y))
              ∙ swapped_twice v u m;
          held = λ p b x.
              let (small, (n, y, at, points)) = h.held p b x in
              let (x', at', same) = swap_back v u n s t y w.sheets e f at in
              (small, (swapped v u n, x', at', same.2 ∙ points));
        },
        refl,
        refl,
      )

  -- The earlier version of the move constructor leaves the same world.
  pub move_construct-move_from :
      (v u : ℕ) (t : Sheet) (w : World C)
      → v ≢ u
      → w.sheets u ≡ some t
      → move_construct v u w ≡ move_from v u (declare v w)
  unfolding move_construct swap move_from declare bind
  move_construct-move_from v u t w d e =
      let here = update_self v (some default_sheet) w.sheets in
      let there = update_other v u (some default_sheet) w.sheets (λ same. d (sym same)) ∙ e in
      rw (here, there)
        (ap (λ (f : ℕ → Option Sheet). some (record w { sheets = f }))
          (fun_ext (λ n. commuted v u n d _ _ (update v (some default_sheet) w.sheets))))
