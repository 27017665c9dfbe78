-- ===== src/Spreadsheet/Programs/Runs.antt =====
-- Spreadsheet.cpp: a program on sheets never does anything undefined, and frees what it allocates.
use my_cpp_code.Common.{
  ℕ, ◌≡◌, refl, sym, ap, ◌∙◌, Bool, true, false, not, ◌&&◌, List, [], ◌∷◌, Option, none, some, ◌==◌,
  ==_iff, if◌then◌else◌, Bool-cases, Option-cases, inl, inr,
}
use my_cpp_code.Spreadsheet.{
  Sheet, World, update, construct, declare, destroy, swap, move_construct, move_assign,
  copy_construct, copy_assign, default_sheet,
}
use my_cpp_code.Spreadsheet.Heap.{update_self}
use my_cpp_code.Spreadsheet.Ownership.{
  IsValid, some_eq, none_ne, declare-IsValid, construct-IsValid, destroy-IsValid,
}
use my_cpp_code.Spreadsheet.Swaps.{swap-IsValid, after_swap}
use my_cpp_code.Spreadsheet.Cells.{get-set_cell_at}
use my_cpp_code.Spreadsheet.Copies.{copy_construct_lem}
use my_cpp_code.Spreadsheet.Programs.{
  Statement, make, copy, move, assign_move, exchange, assign_copy, put, end_scope, Live, caught,
  execute, executes, scope, scopes, is_some, Matches, nothing, new_world,
}
use mathlib.Core.Option.{bind}
use mathlib.Core.Path.{subst}

guarded {ℓ} :
    {A : Type ℓ} (b : Bool) (x y : A) → (if b then some x else none) ≡ some y → (b ≡ true) × (x ≡ y)
guarded true x y e = (refl, some_eq e)
guarded false x y e = absurd (none_ne e)

bind-eq_some {ℓ κ} :
    {A : Type ℓ} {B : Type κ} (o : Option A) (f : A → Option B) (b : B)
    → bind o f ≡ some b
    → (a : A) × (o ≡ some a) × (f a ≡ some b)
unfolding bind
bind-eq_some none f b e = absurd (none_ne e)
bind-eq_some (some a) f b e = (a, refl, e)

both_true : (a b : Bool) → (a && b) ≡ true → (a ≡ true) × (b ≡ true)
both_true true b e = (refl, e)
both_true false b e = absurd (cc e)

not-true : (b : Bool) → not b ≡ true → b ≡ false
not-true true e = absurd (cc e)
not-true false e = refl

still_live : (v u : ℕ) (l : Live) → l u ≡ true → update v true l u ≡ true
still_live v u l e = elim (Bool-cases (u == v)) [ inl same ↦ rw same refl | inr other ↦ rw other e ]

set_and_cleared : (v n : ℕ) (l : Live) → l v ≡ false → update v false (update v true l) n ≡ l n
set_and_cleared v n l e = elim (Bool-cases (n == v)) [
  | inl same ↦ rw same (sym (ap l ((==_iff n v).0 same) ∙ e))
  | inr other ↦ rw other refl
]

module _ {ℓ} {C : Type ℓ} where
  live_sheet :
      (v : ℕ) (l : Live) (w : World C)
      → Matches l w
      → l v ≡ true
      → (s : Sheet) × (w.sheets v ≡ some s)
  live_sheet v l w m e = elim (Option-cases (w.sheets v)) [
    | inl dead ↦ absurd (cc (sym (ap is_some dead) ∙ m v ∙ e))
    | inr found ↦ found
  ]

  dead_sheet : (v : ℕ) (l : Live) (w : World C) → Matches l w → l v ≡ false → w.sheets v ≡ none
  dead_sheet v l w m e = elim (Option-cases (w.sheets v)) [
    | inl dead ↦ dead
    | inr (s, found) ↦ absurd (cc (sym (ap is_some found) ∙ m v ∙ e))
  ]

  -- What a statement must do.
  Runs : C → Statement C → World C → Live → Type ℓ
  Runs blank a w l = (w' : World C) × (execute blank a w ≡ some w') × IsValid w' × Matches l w'

  Matches-set :
      (v : ℕ) (s : Sheet) (l : Live) (w w' : World C)
      → Matches l w
      → w'.sheets ≡ update v (some s) w.sheets
      → Matches (update v true l) w'
  Matches-set v s l w w' m e n =
      ap (λ (f : ℕ → Option Sheet). is_some (f n)) e
      ∙ elim (Bool-cases (n == v)) [ inl same ↦ rw same refl | inr other ↦ rw other (m n) ]

  Matches-clear :
      (v : ℕ) (l : Live) (w w' : World C)
      → Matches l w
      → w'.sheets ≡ update v none w.sheets
      → Matches (update v false l) w'
  Matches-clear v l w w' m e n =
      ap (λ (f : ℕ → Option Sheet). is_some (f n)) e
      ∙ elim (Bool-cases (n == v)) [ inl same ↦ rw same refl | inr other ↦ rw other (m n) ]

  Matches-swap :
      (v u : ℕ) (s t : Sheet) (l : Live) (w w' : World C)
      → Matches l w
      → l v ≡ true
      → l u ≡ true
      → w'.sheets ≡ after_swap v u s t w.sheets
      → Matches l w'
  Matches-swap v u s t l w w' m a b e n =
      ap (λ (f : ℕ → Option Sheet). is_some (f n)) e ∙ elim (Bool-cases (n == u)) [
        | inl same ↦ rw same (sym (ap l ((==_iff n u).0 same) ∙ b))
        | inr off ↦ elim (Bool-cases (n == v)) [
          | inl same ↦ rw (off, same) (sym (ap l ((==_iff n v).0 same) ∙ a))
          | inr other ↦ rw (off, other) (m n)
        ]
      ]

  runs-swap :
      (v u : ℕ) (l : Live) (w : World C)
      → IsValid w
      → Matches l w
      → l v ≡ true
      → l u ≡ true
      → (w' : World C) × (swap v u w ≡ some w') × IsValid w' × Matches l w'
  runs-swap v u l w h m a b =
      let (s, at) = live_sheet v l w m a in
      let (t, at') = live_sheet u l w m b in
      let (w', run, valid, sheets, heap) = swap-IsValid v u s t w at at' h in
      (w', run, valid, Matches-swap v u s t l w w' m a b sheets)

  runs-destroy :
      (v : ℕ) (l : Live) (w : World C)
      → IsValid w
      → Matches l w
      → l v ≡ true
      → (w' : World C) × (destroy v w ≡ some w') × IsValid w' × Matches (update v false l) w'
  runs-destroy v l w h m a =
      let (s, at) = live_sheet v l w m a in
      let (w', run, valid, sheets) = destroy-IsValid v s w at h in
      (w', run, valid, Matches-clear v l w w' m sheets)

  runs-copy :
      (blank : C) (v u : ℕ) (l : Live) (w : World C)
      → IsValid w
      → Matches l w
      → l v ≡ false
      → l u ≡ true
      → (w' : World C) × (copy_construct blank v u w ≡ some w')
        × IsValid w'
        × Matches (update v true l) w'
  runs-copy blank v u l w h m a b =
      let (t, at) = live_sheet u l w m b in
      let (w', s, run, valid, sheets, reads) =
        copy_construct_lem blank v u t w h (dead_sheet v l w m a) at in
      (w', run, valid, Matches-set v s l w w' m sheets)

  runs-assign :
      (blank : C) (v u tmp : ℕ) (l : Live) (w : World C)
      → IsValid w
      → Matches l w
      → l v ≡ true
      → l u ≡ true
      → l tmp ≡ false
      → (w' : World C) × (copy_assign blank v u tmp w ≡ some w') × IsValid w' × Matches l w'
  unfolding copy_assign bind
  runs-assign blank v u tmp l w h m a b free =
      let (copied, run, valid, m1) = runs-copy blank tmp u l w h m free b in
      let (exchanged, run', valid', m2) =
        runs-swap v tmp (update tmp true l) copied valid m1 (still_live tmp v l a)
          (update_self tmp true l) in
      let (w', run'', valid'', m3) =
        runs-destroy tmp (update tmp true l) exchanged valid' m2 (update_self tmp true l) in
      (w', rw (run, run', run'') refl, valid'', λ n. m3 n ∙ set_and_cleared tmp n l free)

  execute-Runs :
      (blank : C) (a : Statement C) (l l' : Live) (w : World C)
      → IsValid w
      → Matches l w
      → scope a l ≡ some l'
      → Runs blank a w l'
  unfolding Runs execute move_construct move_assign copy_assign construct declare bind
  execute-Runs blank (make v width height) l l' w h m e =
      let (free, is) = guarded (not (l v)) (update v true l) l' e in
      subst (Runs blank (make v width height) w) is (
        construct blank v width height w,
        refl,
        construct-IsValid blank v width height w (dead_sheet v l w m (not-true (l v) free)) h,
        Matches-set v _ l w (construct blank v width height w) m refl,
      )
  execute-Runs blank (copy v u) l l' w h m e =
      let (ready, is) = guarded _ (update v true l) l' e in
      let (free, there) = both_true _ (l u) ready in
      subst (Runs blank (copy v u) w) is (runs-copy blank v u l w h m (not-true (l v) free) there)
  execute-Runs blank (move v u) l l' w h m e =
      let (ready, is) = guarded _ (update v true l) l' e in
      let (free, there) = both_true _ (l u) ready in
      let dead = dead_sheet v l w m (not-true (l v) free) in
      subst (Runs blank (move v u) w) is (
        runs-swap v u (update v true l) (declare v w) (declare-IsValid v w dead h)
          (Matches-set v default_sheet l w (declare v w) m refl) (update_self v true l)
          (still_live v u l there))
  execute-Runs blank (assign_move v u) l l' w h m e =
      let (ready, is) = guarded _ l l' e in
      let (a, b) = both_true (l v) (l u) ready in
      subst (Runs blank (assign_move v u) w) is (runs-swap v u l w h m a b)
  execute-Runs blank (exchange v u) l l' w h m e =
      let (ready, is) = guarded _ l l' e in
      let (a, b) = both_true (l v) (l u) ready in
      subst (Runs blank (exchange v u) w) is (runs-swap v u l w h m a b)
  execute-Runs blank (assign_copy v u tmp) l l' w h m e =
      let (ready, is) = guarded _ l l' e in
      let (first, free) = both_true (l v && l u) _ ready in
      let (a, b) = both_true (l v) (l u) first in
      subst (Runs blank (assign_copy v u tmp) w) is
        (runs-assign blank v u tmp l w h m a b (not-true (l tmp) free))
  execute-Runs blank (put v x y c) l l' w h m e =
      let (a, is) = guarded (l v) l l' e in
      let (s, at) = live_sheet v l w m a in
      subst (Runs blank (put v x y c) w) is (elim (get-set_cell_at v x y c s w h at) [
        | inl (outside, thrown) ↦ (w, ap (caught w) thrown, h, m)
        | inr (inside, below, (w', run, valid, sheets, reads)) ↦ (
          w',
          ap (caught w) run,
          valid,
          λ n. ap (λ (f : ℕ → Option Sheet). is_some (f n)) sheets ∙ m n,
        )
      ])
  execute-Runs blank (end_scope v) l l' w h m e =
      let (a, is) = guarded (l v) (update v false l) l' e in
      subst (Runs blank (end_scope v) w) is (runs-destroy v l w h m a)

  executes-Runs :
      (blank : C) (program : List (Statement C)) (l l' : Live) (w : World C)
      → IsValid w
      → Matches l w
      → scopes program l ≡ some l'
      → (w' : World C) × (executes blank program w ≡ some w') × IsValid w' × Matches l' w'
  unfolding executes scopes bind Runs
  executes-Runs blank [] l l' w h m e = (w, refl, h, λ n. m n ∙ ap (λ (k : Live). k n) (some_eq e))
  executes-Runs blank (a ∷ program) l l' w h m e =
      let (mid, fits, after) = bind-eq_some (scope a l) (scopes program) l' e in
      let (w1, run, valid, m1) = execute-Runs blank a l mid w h m fits in
      let (w2, rest, valid', m2) = executes-Runs blank program mid l' w1 valid m1 after in
      (w2, rw run rest, valid', m2)

-- In a program whose variables are constructed before their use and destroyed once, as the
-- compiler has it, nothing undefined happens: no block is read, written or freed after it was
-- freed, or read out of bounds; and at its end no sheet is live and no block is left.
pub executes-freed {ℓ} :
    {C : Type ℓ} (blank : C) (program : List (Statement C)) (l : Live)
    → scopes program nothing ≡ some l
    → ((v : ℕ) → l v ≡ false)
    → (w : World C) × (executes blank program new_world ≡ some w)
      × ((v : ℕ) → w.sheets v ≡ none)
      × ((p : ℕ) → w.heap p ≡ none)
unfolding new_world
executes-freed {C} blank program l e over =
    let empty : IsValid (new_world {C = C}) = record {
      owned = λ v s x. absurd (none_ne x);
      apart = λ v u p s t x y f g. absurd (none_ne x);
      held = λ p b x. absurd (none_ne x);
    } in
    let (w, run, valid, m) = executes-Runs blank program nothing l new_world empty (λ v. refl) e in
    let ended : (v : ℕ) → w.sheets v ≡ none = λ v. dead_sheet v l w m (over v) in
    (
      w,
      run,
      ended,
      λ p. elim (Option-cases (w.heap p)) [
        | inl freed ↦ freed
        | inr (b, there) ↦
            let (small, (v, s, at, points)) = valid.held p b there in
            absurd (none_ne (sym (ended v) ∙ at))
      ],
    )
