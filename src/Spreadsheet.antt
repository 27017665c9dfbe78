-- ===== src/Spreadsheet.antt =====
-- professional_cpp/src/ch09/Spreadsheet.cc and Spreadsheet.cpp: `Spreadsheet`, which owns an array of
-- arrays of cells.
--
-- A cell is of any type, with what its default constructor makes. The arrays of one sheet are a block of
-- the heap. Sheets are variables; `none` is undefined behaviour or, in `Checked`, an exception.
pub mod Heap
pub mod Ownership
pub mod Swaps
pub mod Cells
pub mod Copies
pub mod Programs
mod Tests
use my_cpp_code.Common.Words.{size_mod}
use my_cpp_code.Common.{
  ℕ, zero, suc, ◌+◌, ◌%◌, Bool, true, false, ◌&&◌, Option, none, some, ltb, ◌==◌, if◌then◌else◌,
}
use mathlib.Core.Option.{bind}

abbrev pub update {ℓ} : {A : Type ℓ} → ℕ → A → (ℕ → A) → ℕ → A
update k a f n = if n == k then a else f n

pub record Block {ℓ} (C : Type ℓ) : Type ℓ where
  pub width : ℕ
  pub height : ℕ
  pub cell : ℕ → ℕ → C

pub record Sheet : Type 0 where
  pub id : ℕ
  pub width : ℕ
  pub height : ℕ
  pub cells : Option ℕ

-- `next` is an address that was never given out; `counter` is `ms_counter`.
pub record World {ℓ} (C : Type ℓ) : Type ℓ where
  pub heap : ℕ → Option (Block C)
  pub next : ℕ
  pub counter : ℕ
  pub sheets : ℕ → Option Sheet

-- The member initialisers of the class.
abbrev pub default_sheet : Sheet
default_sheet = record { id = 223344; width = 0; height = 0; cells = none }

-- What `swap` takes from the other sheet; the identity stays.
abbrev pub with_cells_of : Sheet → Sheet → Sheet
with_cells_of other s = record s { width = other.width; height = other.height; cells = other.cells }

-- Whether `verify` lets an access pass.
unfoldable pub verify : ℕ → ℕ → Sheet → Bool
verify x y s = ltb x s.width && ltb y s.height

module _ {ℓ} {C : Type ℓ} (blank : C) where
  -- `Spreadsheet(width, height)`, into the variable `v`.
  unfoldable pub construct : ℕ → ℕ → ℕ → World C → World C
  construct v width height w =
      let count = (w.counter + 1) % size_mod in
      record w {
        heap =
            update w.next (some (record { width = width; height = height; cell = λ x y. blank }))
              w.heap;
        next = w.next + 1;
        counter = count;
        sheets =
            update v
              (some (record { id = count; width = width; height = height; cells = some w.next }))
              w.sheets;
      }

module _ {ℓ} {C : Type ℓ} where
  -- The member initialisers alone.
  unfoldable pub declare : ℕ → World C → World C
  declare v w = record w { sheets = update v (some default_sheet) w.sheets }

  -- The two `delete[]`: the rows are read through `m_cells`, one for each column.
  unfoldable pub delete_cells :
      ℕ → Option ℕ → (ℕ → Option (Block C)) → Option (ℕ → Option (Block C))
  delete_cells width none heap = if width == 0 then some heap else none
  delete_cells width (some p) heap = elim (heap p) [
    | none ↦ none
    | some b ↦ if b.width == width then some (update p none heap) else none
  ]

  unfoldable pub destroy : ℕ → World C → Option (World C)
  unfolding delete_cells bind
  destroy v w = bind (w.sheets v) λ s.
      bind (delete_cells s.width s.cells w.heap)
        λ heap. some (record w { heap = heap; sheets = update v none w.sheets })

  -- `m_cells[x][y]`, read and written.
  unfoldable pub load : Option ℕ → ℕ → ℕ → (ℕ → Option (Block C)) → Option C
  unfolding bind
  load cells x y heap =
      bind cells
        λ p. bind (heap p) λ b. if ltb x b.width && ltb y b.height then some (b.cell x y) else none

  abbrev pub with_cell : ℕ → ℕ → C → Block C → Block C
  with_cell x y c b = record b { cell = λ i j. if i == x && j == y then c else b.cell i j }

  unfoldable pub store :
      Option ℕ → ℕ → ℕ → C → (ℕ → Option (Block C)) → Option (ℕ → Option (Block C))
  unfolding bind
  store cells x y c heap = bind cells λ p. bind (heap p) λ b.
      if ltb x b.width && ltb y b.height
      then some (update p (some (with_cell x y c b)) heap)
      else none

  -- The inner loop of the copy constructor, with `left` rounds to go, and the outer one.
  unfoldable pub copy_column :
      ℕ → Option ℕ → Option ℕ → ℕ → ℕ → (ℕ → Option (Block C)) → Option (ℕ → Option (Block C))
  unfolding bind
  copy_column zero from to i j heap = some heap
  copy_column (suc left) from to i j heap =
      bind (load from i j heap)
        λ c. bind (store to i j c heap) λ next. copy_column left from to i (j + 1) next

  unfoldable pub copy_columns :
      ℕ → ℕ → Option ℕ → Option ℕ → ℕ → (ℕ → Option (Block C)) → Option (ℕ → Option (Block C))
  unfolding bind
  copy_columns zero height from to i heap = some heap
  copy_columns (suc left) height from to i heap =
      bind (copy_column height from to i 0 heap)
        λ next. copy_columns left height from to (i + 1) next

  unfoldable pub swap : ℕ → ℕ → World C → Option (World C)
  unfolding bind
  swap v u w = bind (w.sheets v) λ s. bind (w.sheets u) λ t. some (record w {
    sheets = update u (some (with_cells_of s t)) (update v (some (with_cells_of t s)) w.sheets);
  })

  unfoldable pub move_construct : ℕ → ℕ → World C → Option (World C)
  unfolding swap declare
  move_construct v u w = swap v u (declare v w)

  unfoldable pub move_assign : ℕ → ℕ → World C → Option (World C)
  unfolding swap
  move_assign v u w = swap v u w

  -- `moveFrom`, which an earlier version of the move constructor called.
  unfoldable pub move_from : ℕ → ℕ → World C → Option (World C)
  unfolding bind
  move_from v u w = bind (w.sheets v) λ s. bind (w.sheets u) λ t. some (record w {
    sheets =
        update v (some (with_cells_of t s))
          (update u (some (record t { width = 0; height = 0; cells = none })) w.sheets);
  })

-- What an access may do: return, throw, or be undefined.
pub data Checked {ℓ} (A : Type ℓ) : Type ℓ where
  ok : A → Checked A
  out_of_range undefined : Checked A

abbrev pub defined {ℓ} : {A : Type ℓ} → Option A → Checked A
defined none = undefined
defined (some a) = ok a

module _ {ℓ} {C : Type ℓ} where
  unfoldable pub get_cell_at : ℕ → ℕ → ℕ → World C → Checked C
  unfolding verify load
  get_cell_at v x y w = elim (w.sheets v) [
    | none ↦ undefined
    | some s ↦ if verify x y s then defined (load s.cells x y w.heap) else out_of_range
  ]

  unfoldable pub set_cell_at : ℕ → ℕ → ℕ → C → World C → Checked (World C)
  unfolding verify store bind
  set_cell_at v x y c w = elim (w.sheets v) [
    | none ↦ undefined
    | some s ↦
        if verify x y s
        then defined (bind (store s.cells x y c w.heap) λ heap. some (record w { heap = heap }))
        else out_of_range
  ]

module _ {ℓ} {C : Type ℓ} (blank : C) where
  -- The copy constructor, which delegates to the first constructor.
  unfoldable pub copy_construct : ℕ → ℕ → World C → Option (World C)
  unfolding construct copy_columns bind
  copy_construct v u w = bind (w.sheets u) λ src.
      let made = construct blank v src.width src.height w in
      bind (copy_columns src.width src.height src.cells (some w.next) 0 made.heap)
        λ heap. some (record made { heap = heap })

  -- The copy assignment; `tmp` names its local variable.
  unfoldable pub copy_assign : ℕ → ℕ → ℕ → World C → Option (World C)
  unfolding copy_construct swap destroy bind
  copy_assign v u tmp w =
      bind (copy_construct tmp u w)
        λ copied. bind (swap v tmp copied) λ swapped. destroy tmp swapped
