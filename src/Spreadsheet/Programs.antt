-- ===== src/Spreadsheet/Programs.antt =====
-- Spreadsheet.cpp: whole programs on sheets.
--
-- The compiler sees to it that a variable is constructed before its use and destroyed once; `scope` is
-- its count of the live variables.
pub mod Runs
use my_cpp_code.Common.{
  ℕ, ◌≡◌, ◌≢◌, refl, sym, ap, ◌∙◌, arith, Bool, true, false, not, ◌&&◌, List, [], ◌∷◌, Option, none,
  some, ◌==◌, ==_iff, if◌then◌else◌, Bool-cases, Option-cases, inl, inr, ◌⊎◌,
}
use my_cpp_code.Spreadsheet.{
  Block, Sheet, World, update, construct, declare, destroy, swap, move_construct, move_assign,
  copy_construct, copy_assign, Checked, ok, out_of_range, undefined, set_cell_at, with_cells_of,
  default_sheet,
}
use my_cpp_code.Spreadsheet.Heap.{update_self, update_other}
use my_cpp_code.Spreadsheet.Ownership.{
  IsValid, some_eq, none_ne, declare-IsValid, construct-IsValid, destroy-IsValid,
}
use my_cpp_code.Spreadsheet.Swaps.{swap-IsValid, after_swap}
use my_cpp_code.Spreadsheet.Cells.{get-set_cell_at}
use my_cpp_code.Spreadsheet.Copies.{copy_construct_lem}
use mathlib.Core.Option.{bind}
use mathlib.Core.Path.{subst}

-- The statements; the last number of `assign_copy` is the name of its local variable.
pub data Statement {ℓ} (C : Type ℓ) : Type ℓ where
  make : (v width height : ℕ) → Statement C
  copy move assign_move exchange : (v u : ℕ) → Statement C
  assign_copy : (v u tmp : ℕ) → Statement C
  put : (v x y : ℕ) → C → Statement C
  end_scope : (v : ℕ) → Statement C

abbrev pub Live : Type 0
Live = ℕ → Bool

abbrev pub is_some : Option Sheet → Bool
is_some none = false
is_some (some s) = true

module _ {ℓ} {C : Type ℓ} where
  -- A program catches the exception that `setCellAt` throws.
  abbrev pub caught : World C → Checked (World C) → Option (World C)
  caught w (ok w') = some w'
  caught w out_of_range = some w
  caught w undefined = none

  unfoldable pub execute : C → Statement C → World C → Option (World C)
  execute blank (make v width height) w = some (construct blank v width height w)
  execute blank (copy v u) w = copy_construct blank v u w
  execute blank (move v u) w = move_construct v u w
  execute blank (assign_move v u) w = move_assign v u w
  execute blank (exchange v u) w = swap v u w
  execute blank (assign_copy v u tmp) w = copy_assign blank v u tmp w
  execute blank (put v x y c) w = caught w (set_cell_at v x y c w)
  execute blank (end_scope v) w = destroy v w

  unfoldable pub executes : C → List (Statement C) → World C → Option (World C)
  unfolding bind
  executes blank [] w = some w
  executes blank (a ∷ program) w = bind (execute blank a w) (executes blank program)

  -- The live variables behind a statement, if it may stand there.
  abbrev pub scope : Statement C → Live → Option Live
  scope (make v width height) l = if not (l v) then some (update v true l) else none
  scope (copy v u) l = if not (l v) && l u then some (update v true l) else none
  scope (move v u) l = if not (l v) && l u then some (update v true l) else none
  scope (assign_move v u) l = if l v && l u then some l else none
  scope (exchange v u) l = if l v && l u then some l else none
  scope (assign_copy v u tmp) l = if l v && l u && not (l tmp) then some l else none
  scope (put v x y c) l = if l v then some l else none
  scope (end_scope v) l = if l v then some (update v false l) else none

  unfoldable pub scopes : List (Statement C) → Live → Option Live
  unfolding bind
  scopes [] l = some l
  scopes (a ∷ program) l = bind (scope a l) (scopes program)

  abbrev pub Matches : Live → World C → Type 0
  Matches l w = (v : ℕ) → is_some (w.sheets v) ≡ l v

abbrev pub nothing : Live
nothing v = false

unfoldable pub new_world {ℓ} : {C : Type ℓ} → World C
new_world = record { heap = λ p. none; next = 0; counter = 0; sheets = λ v. none }
