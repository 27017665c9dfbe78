-- ===== src/Spreadsheet/Tests.antt =====
-- The theorems on small sheets of numbers.
use my_cpp_code.Common.{
  ℕ, ◌≡◌, ◌≤◌, ◌<◌, ◌⊎◌, refl, sym, ap, ◌∙◌, arith, true, false, ◌&&◌, List, [], ◌∷◌, none, some,
  ◌==◌, if◌then◌else◌,
}
use my_cpp_code.Spreadsheet.{
  Block, Sheet, World, update, ok, out_of_range, get_cell_at, set_cell_at, copy_construct,
}
use my_cpp_code.Spreadsheet.Ownership.{Owns, IsValid}
use my_cpp_code.Spreadsheet.Cells.{get-set_cell_at}
use my_cpp_code.Spreadsheet.Copies.{copy_construct_lem}
use my_cpp_code.Spreadsheet.Programs.{
  Statement, make, copy, move, assign_move, exchange, assign_copy, put, end_scope, Live, executes,
  scopes, nothing, new_world,
}
use my_cpp_code.Spreadsheet.Programs.Runs.{executes-freed}
use mathlib.Core.Path.{subst}

-- A sheet is copied, written, assigned to itself, moved from and destroyed.
abbrev program : List (Statement ℕ)
program =
    make 0 2 3
    ∷ put 0 1 2 7
    ∷ copy 1 0
    ∷ put 1 1 9 8
    ∷ assign_copy 1 1 5
    ∷ move 2 0
    ∷ exchange 2 2
    ∷ assign_move 0 1
    ∷ end_scope 2
    ∷ end_scope 1
    ∷ end_scope 0
    ∷ []

-- What the compiler's count says behind the program.
abbrev left_over : Live
left_over =
    update 0 false
      (update 1 false (update 2 false (update 2 true (update 1 true (update 0 true nothing)))))

scopes-program : scopes program nothing ≡ some left_over
unfolding scopes
scopes-program = refl

none_left : (v : ℕ) → left_over v ≡ false
none_left v = ground arith

executes-freed_example :
    (w : World ℕ) × (executes 0 program new_world ≡ some w)
    × ((v : ℕ) → w.sheets v ≡ none)
    × ((p : ℕ) → w.heap p ≡ none)
executes-freed_example = executes-freed 0 program left_over scopes-program none_left

abbrev one_sheet : Sheet
one_sheet = record { id = 1; width = 2; height = 2; cells = some 0 }

abbrev one_world : World ℕ
one_world = record {
  heap = λ p. if p == 0 then some (record { width = 2; height = 2; cell = λ x y. 5 }) else none;
  next = 1;
  counter = 1;
  sheets = λ v. if v == 3 then some one_sheet else none;
}

one_at : (v : ℕ) (s : Sheet) → one_world.sheets v ≡ some s → (v ≡ 3) × (one_sheet ≡ s)
one_at v s e = ground arith

one_block : (p : ℕ) (b : Block ℕ) → one_world.heap p ≡ some b → p ≡ 0
one_block p b e = ground arith

one_world-IsValid : IsValid one_world
one_world-IsValid = record {
  owned = λ v s e.
      subst (λ (t : Sheet). Owns one_world.heap t t.cells) (one_at v s e).1 (_, refl, refl, refl);
  apart = λ v u p s t e f g h. (one_at v s e).0 ∙ sym (one_at u t f).0;
  held = λ p b e.
      let at = one_block p b e in (omega (arith, at), (3, one_sheet, refl, ap some (sym at)));
}

get-set_cell_at_example :
    (((one_sheet.width ≤ 1) ⊎ (one_sheet.height ≤ 0))
      × (set_cell_at 3 1 0 9 one_world ≡ out_of_range))
    ⊎ ((1 < one_sheet.width)
        × (0 < one_sheet.height)
        × ((w : World ℕ) × (set_cell_at 3 1 0 9 one_world ≡ ok w)
            × IsValid w
            × (w.sheets ≡ one_world.sheets)
            × ((u i j : ℕ)
                → get_cell_at u i j w
                  ≡ (if u == 3 && (i == 1 && j == 0) then ok 9 else get_cell_at u i j one_world))))
get-set_cell_at_example = get-set_cell_at 3 1 0 9 one_sheet one_world one_world-IsValid refl

copy_construct_lem_example :
    (w : World ℕ) × (s : Sheet) × (copy_construct 0 4 3 one_world ≡ some w)
    × IsValid w
    × (w.sheets ≡ update 4 (some s) one_world.sheets)
    × ((n x y : ℕ)
        → get_cell_at n x y w
          ≡ (if n == 4 then get_cell_at 3 x y one_world else get_cell_at n x y one_world))
copy_construct_lem_example =
    copy_construct_lem 0 4 3 one_sheet one_world one_world-IsValid refl refl
