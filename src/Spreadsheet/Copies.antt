-- ===== src/Spreadsheet/Copies.antt =====
-- Spreadsheet.cpp: the copy constructor.
use my_cpp_code.Common.{
  ℕ, ◌≡◌, ◌≢◌, refl, sym, ◌∙◌, arith, Option, none, some, ◌==◌, ==_iff, if◌then◌else◌, Bool-cases,
  Option-cases, inl, inr,
}
use my_cpp_code.Spreadsheet.{
  Block, Sheet, World, update, construct, copy_columns, verify, ok, out_of_range, get_cell_at,
  copy_construct,
}
use my_cpp_code.Spreadsheet.Heap.{update_self, update_other, Wrote, columns_from, copy_columns_lem}
use my_cpp_code.Spreadsheet.Ownership.{Owns, Owns-some, IsValid, below_next, construct-IsValid}
use my_cpp_code.Spreadsheet.Cells.{
  Wrote-IsValid, read_cells, read_null, read_dead, get_frame, ne_of_==,
}
use mathlib.Core.Option.{bind}
use mathlib.Core.Path.{subst}

module _ {ℓ} {C : Type ℓ} (blank : C) where
  abbrev fresh_block : ℕ → ℕ → Block C
  fresh_block width height = record { width = width; height = height; cell = λ x y. blank }

  no_columns :
      (width height : ℕ) (from to : Option ℕ) (heap : ℕ → Option (Block C))
      → width ≡ 0
      → copy_columns width height from to 0 heap ≡ some heap
  unfolding copy_columns
  no_columns width height from to heap e = rw e refl

  all_outside :
      (x y : ℕ) (c : C) (t : Sheet)
      → t.width ≡ 0
      → (if verify x y t then ok c else out_of_range) ≡ out_of_range
  unfolding verify
  all_outside x y c t e = ground arith

  all_copied :
      (x y : ℕ) (t : Sheet) (from to : ℕ → ℕ → C)
      → (if verify x y t then ok (from x y) else out_of_range)
        ≡ (if verify x y t then ok (columns_from t.width t.height 0 from to x y) else out_of_range)
  unfolding verify
  all_copied x y t from to = ground arith

  -- The copy loops fill a fresh block with what the source reads.
  filled :
      (u q : ℕ) (t : Sheet) (w : World C) (heap : ℕ → Option (Block C))
      → IsValid w
      → w.sheets u ≡ some t
      → heap q ≡ some (fresh_block t.width t.height)
      → ((p : ℕ) → p ≢ q → heap p ≡ w.heap p)
      → ((p : ℕ) → t.cells ≡ some p → p ≢ q)
      → (next : ℕ → Option (Block C)) × (new : ℕ → ℕ → C) × (copy_columns t.width t.height t.cells
            (some q)
            0
            heap
          ≡ some next)
        × Wrote heap next q (fresh_block t.width t.height) new
        × ((x y : ℕ) → get_cell_at u x y w ≡ (if verify x y t then ok (new x y) else out_of_range))
  filled u q t w heap h at there rest apart = elim (Option-cases t.cells) [
    | inl null ↦
        let (thin, flat, _) = subst (Owns w.heap t) null (h.owned u t at) in
        (
          heap,
          (λ x y. blank),
          no_columns t.width t.height t.cells (some q) heap thin,
          record {
            block = fresh_block t.width t.height;
            there = there;
            width = refl;
            height = refl;
            cell = λ x y. refl;
            rest = λ r d. refl;
          },
          λ x y. read_null u x y t w at thin ∙ sym (all_outside x y blank t thin),
        )
    | inr (p, points) ↦
        let (b, has, e, f) = Owns-some w.heap t t.cells p (h.owned u t at) points in
        let (next, run, wrote) =
          copy_columns_lem t.width t.height 0 p q heap b (fresh_block t.width t.height)
            (rest p (apart p points) ∙ has) there (apart p points) (omega arith) (omega arith)
            (omega arith) (omega arith) in
        (
          next,
          columns_from t.width t.height 0 b.cell (λ x y. blank),
          subst (λ cells. copy_columns t.width t.height cells (some q) 0 heap ≡ some next)
              (sym points) run,
          wrote,
          λ x y.
              read_cells u x y p t b w at points has e f ∙ all_copied x y t b.cell (λ x y. blank),
        )
  ]

  same_reads :
      (x y : ℕ) (s t : Sheet) (c d : C)
      → s.width ≡ t.width
      → s.height ≡ t.height
      → c ≡ d
      → (if verify x y s then ok c else out_of_range)
        ≡ (if verify x y t then ok d else out_of_range)
  unfolding verify
  same_reads x y s t c d e f g = ground arith

  unchanged :
      (n x y : ℕ) (w w' : World C)
      → IsValid w
      → w'.sheets n ≡ w.sheets n
      → ((p : ℕ) → p ≢ w.next → w'.heap p ≡ w.heap p)
      → get_cell_at n x y w' ≡ get_cell_at n x y w
  unchanged n x y w w' h e rest = elim (Option-cases (w.sheets n)) [
    | inl dead ↦ read_dead n x y w' (e ∙ dead) ∙ sym (read_dead n x y w dead)
    | inr (r, live) ↦
        get_frame n x y r w w' live (e ∙ live)
          λ p points. rest p (λ same. omega (arith, below_next w n p r h live points, same))
  ]

  copy_reads :
      (v u n x y : ℕ) (s : Sheet) (w w' : World C) (new : ℕ → ℕ → C)
      → IsValid w
      → (b : Block C) → w'.sheets v ≡ some s
      → (n ≢ v → w'.sheets n ≡ w.sheets n)
      → s.cells ≡ some w.next
      → w'.heap w.next ≡ some b
      → b.width ≡ s.width
      → b.height ≡ s.height
      → ((i j : ℕ) → b.cell i j ≡ new i j)
      → ((i j : ℕ) → get_cell_at u i j w ≡ (if verify i j s then ok (new i j) else out_of_range))
      → ((p : ℕ) → p ≢ w.next → w'.heap p ≡ w.heap p)
      → get_cell_at n x y w' ≡ (if n == v then get_cell_at u x y w else get_cell_at n x y w)
  copy_reads v u n x y s w w' new h b at off points there e f cells reads rest =
      elim (Bool-cases (n == v)) [
        | inl same ↦
            subst
              (λ k.
                get_cell_at k x y w'
                ≡ (if k == v then get_cell_at u x y w else get_cell_at k x y w))
              (sym ((==_iff n v).0 same))
              (rw ((==_iff v v).1 refl) (
                read_cells v x y w.next s b w' at points there e f
                ∙ same_reads x y s s (b.cell x y) (new x y) refl refl (cells x y)
                ∙ sym (reads x y)))
        | inr other ↦ rw other (unchanged n x y w w' h (off (ne_of_== n v other)) rest)
      ]

  -- On a valid world, into a variable that is not live and from one that is: the copy
  -- constructor does nothing undefined and keeps the world valid, every read of the copy does
  -- what that of the source did, and every other read what it did.
  pub copy_construct_lem :
      (v u : ℕ) (t : Sheet) (w : World C)
      → IsValid w
      → w.sheets v ≡ none
      → w.sheets u ≡ some t
      → (w' : World C) × (s : Sheet) × (copy_construct blank v u w ≡ some w')
        × IsValid w'
        × (w'.sheets ≡ update v (some s) w.sheets)
        × ((n x y : ℕ)
            → get_cell_at n x y w' ≡ (if n == v then get_cell_at u x y w else get_cell_at n x y w))
  unfolding copy_construct construct bind verify
  copy_construct_lem v u t w h dead at =
      let made = construct blank v t.width t.height w in
      let valid = construct-IsValid blank v t.width t.height w dead h in
      let (next, new, run, wrote, reads) =
        filled u w.next t w made.heap h at (update_self w.next _ w.heap)
          (λ p d. update_other w.next p _ w.heap d)
          (λ p points same. omega (arith, below_next w u p t h at points, same)) in
      let w' : World C = record made { heap = next } in
      let s : Sheet = record {
        id = made.counter;
        width = t.width;
        height = t.height;
        cells = some w.next;
      } in
      (
        w',
        s,
        rw (at, run) refl,
        Wrote-IsValid made next w.next (fresh_block t.width t.height) new
            (update_self w.next _ w.heap) wrote valid,
        refl,
        λ n x y.
            copy_reads v u n x y s w w' new h wrote.block (update_self v _ w.sheets)
              (λ d. update_other v n _ w.sheets d) refl wrote.there wrote.width wrote.height
              wrote.cell reads (λ p d. wrote.rest p d ∙ update_other w.next p _ w.heap d),
      )
