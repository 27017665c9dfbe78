-- ===== src/Spreadsheet/Cells.antt =====
-- Spreadsheet.cpp: `getCellAt` and `setCellAt`.
use my_cpp_code.Common.{
  ℕ, ◌≤◌, ◌<◌, ◌≡◌, ◌≢◌, refl, sym, ap, ◌∙◌, arith, true, false, ◌&&◌, Option, none, some, ◌==◌,
  ==_iff, if◌then◌else◌, Bool-cases, Option-cases, inl, inr, ◌⊎◌,
}
use my_cpp_code.Spreadsheet.{
  Block, Sheet, World, update, with_cell, load, store, verify, ok, out_of_range, undefined,
  get_cell_at, set_cell_at,
}
use my_cpp_code.Spreadsheet.Heap.{update_self, update_other, Wrote}
use my_cpp_code.Spreadsheet.Ownership.{Owns, Owns-some, IsValid, some_eq}
use mathlib.Core.Option.{bind}
use mathlib.Core.Path.{subst}

pub ne_of_== : (a b : ℕ) → (a == b) ≡ false → a ≢ b
ne_of_== a b h e = ground arith

no_cell : (x y : ℕ) (s : Sheet) → s.width ≡ 0 → verify x y s ≡ true → ⊥
unfolding verify
no_cell x y s e h = ground arith

within : (x y : ℕ) (s : Sheet) → verify x y s ≡ true → (x < s.width) × (y < s.height)
unfolding verify
within x y s e = (ground arith, ground arith)

beyond : (x y : ℕ) (s : Sheet) → verify x y s ≡ false → (s.width ≤ x) ⊎ (s.height ≤ y)
unfolding verify
beyond x y s e = ground arith

module _ {ℓ} {C : Type ℓ} where
  Wrote-Owns :
      (heap next : ℕ → Option (Block C)) (q : ℕ) (b : Block C) (new : ℕ → ℕ → C)
      → heap q ≡ some b
      → Wrote heap next q b new
      → (s : Sheet) (cells : Option ℕ) → Owns heap s cells
      → Owns next s cells
  Wrote-Owns heap next q b new e r s none own = own
  Wrote-Owns heap next q b new e r s (some p) (a, there, x, y) = elim (Bool-cases (p == q)) [
    | inl same ↦
        let at = (==_iff p q).0 same in
        let is : a ≡ b = some_eq (sym there ∙ ap heap at ∙ e) in
        (
          r.block,
          ap next at ∙ r.there,
          r.width ∙ ap (λ (z : Block C). z.width) (sym is) ∙ x,
          r.height ∙ ap (λ (z : Block C). z.height) (sym is) ∙ y,
        )
    | inr other ↦ (a, r.rest p (λ same. ground arith) ∙ there, x, y)
  ]

  -- Rewriting the cells of one block keeps the ownership.
  pub Wrote-IsValid :
      (w : World C) (next : ℕ → Option (Block C)) (q : ℕ) (b : Block C) (new : ℕ → ℕ → C)
      → w.heap q ≡ some b
      → Wrote w.heap next q b new
      → IsValid w
      → IsValid (record w { heap = next })
  Wrote-IsValid w next q b new e r h = record {
    owned = λ v s at. Wrote-Owns w.heap next q b new e r s s.cells (h.owned v s at);
    apart = h.apart;
    held = λ p c at. elim (Bool-cases (p == q)) [
      | inl same ↦ rw (← (==_iff p q).0 same) at (h.held q b e)
      | inr other ↦ h.held p c (sym (r.rest p (λ same. ground arith)) ∙ at)
    ];
  }

  pub read_cells :
      (v x y p : ℕ) (s : Sheet) (b : Block C) (w : World C)
      → w.sheets v ≡ some s
      → s.cells ≡ some p
      → w.heap p ≡ some b
      → b.width ≡ s.width
      → b.height ≡ s.height
      → get_cell_at v x y w ≡ (if verify x y s then ok (b.cell x y) else out_of_range)
  unfolding get_cell_at verify load bind
  read_cells v x y p s b w at points there e f = ground arith

  pub read_null :
      (v x y : ℕ) (s : Sheet) (w : World C)
      → w.sheets v ≡ some s
      → s.width ≡ 0
      → get_cell_at v x y w ≡ out_of_range
  unfolding get_cell_at verify
  read_null v x y s w at e = ground arith

  -- A sheet reads the same while its variable and its block are the same.
  pub get_frame :
      (v x y : ℕ) (s : Sheet) (w w' : World C)
      → w.sheets v ≡ some s
      → w'.sheets v ≡ some s
      → ((p : ℕ) → s.cells ≡ some p → w'.heap p ≡ w.heap p)
      → get_cell_at v x y w' ≡ get_cell_at v x y w
  unfolding get_cell_at load bind
  get_frame v x y s w w' at at' same = elim (Option-cases s.cells) [
    | inl null ↦ ground arith
    | inr (p, points) ↦ let e = same p points in ground arith
  ]

  write_cells :
      (v x y p : ℕ) (c : C) (s : Sheet) (b : Block C) (w : World C)
      → w.sheets v ≡ some s
      → s.cells ≡ some p
      → w.heap p ≡ some b
      → b.width ≡ s.width
      → b.height ≡ s.height
      → set_cell_at v x y c w ≡ (
          if verify x y s
          then ok (record w { heap = update p (some (with_cell x y c b)) w.heap })
          else out_of_range)
  unfolding set_cell_at verify store bind
  write_cells v x y p c s b w at points there e f = ground arith

  pub read_dead : (v x y : ℕ) (w : World C) → w.sheets v ≡ none → get_cell_at v x y w ≡ undefined
  unfolding get_cell_at
  read_dead v x y w e = rw (e, get_cell_at) refl

  write_outside :
      (v x y : ℕ) (c : C) (s : Sheet) (w : World C)
      → w.sheets v ≡ some s
      → verify x y s ≡ false
      → set_cell_at v x y c w ≡ out_of_range
  unfolding set_cell_at
  write_outside v x y c s w e f = rw (e, f, set_cell_at) refl

  own_write :
      (v x y i j : ℕ) (c : C) (s : Sheet) (p : ℕ) (b : Block C) (w : World C)
      → w.sheets v ≡ some s
      → s.cells ≡ some p
      → w.heap p ≡ some b
      → b.width ≡ s.width
      → b.height ≡ s.height
      → verify x y s ≡ true
      → get_cell_at v i j (record w { heap = update p (some (with_cell x y c b)) w.heap })
        ≡ (if v == v && (i == x && j == y) then ok c else get_cell_at v i j w)
  own_write v x y i j c s p b w at points there e f inside =
      let w' : World C = record w { heap = update p (some (with_cell x y c b)) w.heap } in
      let now =
        read_cells v i j p s (with_cell x y c b) w' at points (update_self p _ w.heap) e f in
      let before = read_cells v i j p s b w at points there e f in
      elim (Bool-cases (i == x && j == y)) [
        | inl here ↦
            let row : i ≡ x = ground arith in
            let column : j ≡ y = ground arith in
            let inside' : verify i j s ≡ true = rw (row, column) inside in ground arith
        | inr away ↦ ground arith
      ]

  one_write :
      (v x y u i j : ℕ) (c : C) (s : Sheet) (p : ℕ) (b : Block C) (w : World C)
      → IsValid w
      → w.sheets v ≡ some s
      → s.cells ≡ some p
      → w.heap p ≡ some b
      → b.width ≡ s.width
      → b.height ≡ s.height
      → verify x y s ≡ true
      → get_cell_at u i j (record w { heap = update p (some (with_cell x y c b)) w.heap })
        ≡ (if u == v && (i == x && j == y) then ok c else get_cell_at u i j w)
  one_write v x y u i j c s p b w h at points there e f inside =
      let w' : World C = record w { heap = update p (some (with_cell x y c b)) w.heap } in
      elim (Bool-cases (u == v)) [
        | inl same ↦
            subst
              (λ n.
                get_cell_at n i j w'
                ≡ (if n == v && (i == x && j == y) then ok c else get_cell_at n i j w))
              (sym ((==_iff u v).0 same)) (own_write v x y i j c s p b w at points there e f inside)
        | inr other ↦ elim (Option-cases (w.sheets u)) [
          | inl dead ↦ rw other (read_dead u i j w' dead ∙ sym (read_dead u i j w dead))
          | inr (t, live) ↦ rw other (
              get_frame u i j t w w' live live λ q g.
                update_other p q _ w.heap
                  λ same. ne_of_== u v other (h.apart u v p t s live at (g ∙ ap some same) points))
        ]
      ]

  -- On a live sheet of a valid world `setCellAt` throws out of range and changes nothing, when
  -- `x` is not below the width or `y` not below the height; else both are, and the world stays
  -- valid with the same sheets, a read of that cell gives the new value, and every other read,
  -- of whatever sheet, does what it did.
  pub get-set_cell_at :
      (v x y : ℕ) (c : C) (s : Sheet) (w : World C)
      → IsValid w
      → w.sheets v ≡ some s
      → (((s.width ≤ x) ⊎ (s.height ≤ y)) × (set_cell_at v x y c w ≡ out_of_range))
        ⊎ ((x < s.width)
            × (y < s.height)
            × ((w' : World C) × (set_cell_at v x y c w ≡ ok w')
                × IsValid w'
                × (w'.sheets ≡ w.sheets)
                × ((u i j : ℕ)
                    → get_cell_at u i j w'
                      ≡ (if u == v && (i == x && j == y) then ok c else get_cell_at u i j w))))
  get-set_cell_at v x y c s w h at = elim (Bool-cases (verify x y s)) [
    | inr outside ↦ inl (beyond x y s outside, write_outside v x y c s w at outside)
    | inl inside ↦ elim (Option-cases s.cells) [
      | inl null ↦ absurd (no_cell x y s (subst (Owns w.heap s) null (h.owned v s at)).0 inside)
      | inr (p, points) ↦
          let (b, there, e, f) = Owns-some w.heap s s.cells p (h.owned v s at) points in
          inr (
            (within x y s inside).0,
            (within x y s inside).1,
            (
              record w { heap = update p (some (with_cell x y c b)) w.heap },
              write_cells v x y p c s b w at points there e f ∙ rw inside refl,
              Wrote-IsValid w _ p b (with_cell x y c b).cell there
                  (record {
                    block = with_cell x y c b;
                    there = update_self p _ w.heap;
                    width = refl;
                    height = refl;
                    cell = λ i j. refl;
                    rest = λ r d. update_other p r _ w.heap d;
                  })
                  h,
              refl,
              λ u i j. one_write v x y u i j c s p b w h at points there e f inside,
            ),
          )
    ]
  ]
