-- ===== src/Spreadsheet/Ownership.antt =====
-- Spreadsheet.cpp: each sheet owns its own block, and no block is owned by none.
use my_cpp_code.Common.{
  ℕ, ◌<◌, ◌≡◌, ◌≢◌, refl, sym, ap, ◌∙◌, arith, Option, none, some, ◌==◌, ==_iff, Bool-cases, inl,
  inr, ◌⊎◌,
}
use my_cpp_code.Spreadsheet.{
  Block, Sheet, World, update, default_sheet, construct, declare, delete_cells, destroy,
}
use my_cpp_code.Spreadsheet.Heap.{update_cases, update_self, update_other}
use mathlib.Core.Option.{bind}
use mathlib.Core.Path.{subst}

pub some_eq {ℓ} : {A : Type ℓ} {a b : A} → some a ≡ some b → a ≡ b
some_eq e = cc

pub none_ne {ℓ} : {A : Type ℓ} {a : A} → none ≡ some a → ⊥
none_ne e = cc

points_at : (o : Option ℕ) (p : ℕ) → (o ≡ some p) ⊎ (o ≢ some p)
points_at none p = inr none_ne
points_at (some q) p = elim (Bool-cases (q == p)) [
  | inl same ↦ inl (ap some ((==_iff q p).0 same))
  | inr other ↦ inr (λ e. ground arith)
]

module _ {ℓ} {C : Type ℓ} where
  -- The sheet's pointer leads to a block of its size, or is null and the size 0.
  abbrev pub Owns : (ℕ → Option (Block C)) → Sheet → Option ℕ → Type ℓ
  Owns heap s none = (s.width ≡ 0) × (s.height ≡ 0) × Unit {ℓ}
  Owns heap s (some p) =
      (b : Block C) × (heap p ≡ some b) × (b.width ≡ s.width) × (b.height ≡ s.height)

  pub record IsValid (w : World C) : Type ℓ where
    pub owned : (v : ℕ) (s : Sheet) → w.sheets v ≡ some s → Owns w.heap s s.cells
    pub apart :
        (v u p : ℕ) (s t : Sheet)
        → w.sheets v ≡ some s
        → w.sheets u ≡ some t
        → s.cells ≡ some p
        → t.cells ≡ some p
        → v ≡ u
    pub held :
        (p : ℕ) (b : Block C)
        → w.heap p ≡ some b
        → (p < w.next) × ((v : ℕ) × (s : Sheet) × (w.sheets v ≡ some s) × (s.cells ≡ some p))

  pub Owns-keep :
      (heap next : ℕ → Option (Block C)) (s : Sheet) (cells : Option ℕ)
      → ((p : ℕ) → cells ≡ some p → next p ≡ heap p)
      → Owns heap s cells
      → Owns next s cells
  Owns-keep heap next s none h own = own
  Owns-keep heap next s (some p) h (b, e, x, y) = (b, h p refl ∙ e, x, y)

  -- A pointer of a sheet leads to a block.
  pub Owns-some :
      (heap : ℕ → Option (Block C)) (s : Sheet) (cells : Option ℕ) (p : ℕ)
      → Owns heap s cells
      → cells ≡ some p
      → Owns heap s (some p)
  Owns-some heap s cells p own e = subst (Owns heap s) e own

  live : (w : World C) (v u : ℕ) (s : Sheet) → w.sheets v ≡ none → w.sheets u ≡ some s → u ≢ v
  live w v u s e at same = none_ne (sym e ∙ ap w.sheets (sym same) ∙ at)

  pub below_next :
      (w : World C) (v p : ℕ) (s : Sheet)
      → IsValid w
      → w.sheets v ≡ some s
      → s.cells ≡ some p
      → p < w.next
  below_next w v p s h e f =
      let (b, there, x, y) = Owns-some w.heap s s.cells p (h.owned v s e) f in (h.held p b there).0

  pub declare-IsValid :
      (v : ℕ) (w : World C) → w.sheets v ≡ none → IsValid w → IsValid (declare v w)
  unfolding declare
  declare-IsValid v w e h = record {
    owned = λ u s x. elim (update_cases v u (some default_sheet) w.sheets s x) [
      | inl (same, is) ↦ subst (λ (t : Sheet). Owns w.heap t t.cells) (some_eq is) (refl, refl, tt)
      | inr (other, old) ↦ h.owned u s old
    ];
    apart = λ u t p s r x y f g. elim (update_cases v u (some default_sheet) w.sheets s x) [
      | inl (same, is) ↦ absurd (none_ne (ap (λ (z : Sheet). z.cells) (some_eq is) ∙ f))
      | inr (other, old) ↦ elim (update_cases v t (some default_sheet) w.sheets r y) [
        | inl (same, is) ↦ absurd (none_ne (ap (λ (z : Sheet). z.cells) (some_eq is) ∙ g))
        | inr (other', old') ↦ h.apart u t p s r old old' f g
      ]
    ];
    held = λ p b x.
        let (small, (u, s, at, points)) = h.held p b x in
        (small, (u, s, update_other v u _ w.sheets (live w v u s e at) ∙ at, points));
  }

  -- A block at a fresh address.
  pub construct-IsValid :
      (blank : C) (v width height : ℕ) (w : World C)
      → w.sheets v ≡ none
      → IsValid w
      → IsValid (construct blank v width height w)
  unfolding construct
  construct-IsValid blank v width height w e h =
      let w' = construct blank v width height w in
      let unset : (u : ℕ) (s : Sheet) (p : ℕ)
          → w.sheets u ≡ some s
          → s.cells ≡ some p
          → p ≢ w.next =
        λ u s p at points same. omega (arith, below_next w u p s h at points, same) in
      record {
        owned = λ u s x. elim (update_cases v u _ w.sheets s x) [
          | inl (same, is) ↦
              subst (λ (t : Sheet). Owns w'.heap t t.cells) (some_eq is)
                (_, update_self w.next _ w.heap, refl, refl)
          | inr (other, old) ↦
              Owns-keep w.heap w'.heap s s.cells
                (λ p f. update_other w.next p _ w.heap (unset u s p old f)) (h.owned u s old)
        ];
        apart = λ u t p s r x y f g. elim (update_cases v u _ w.sheets s x) [
          | inl (same, is) ↦ elim (update_cases v t _ w.sheets r y) [
            | inl (same', is') ↦ same ∙ sym same'
            | inr (other', old') ↦ absurd (
                unset t r p old' g
                  (some_eq (sym f ∙ sym (ap (λ (z : Sheet). z.cells) (some_eq is)))))
          ]
          | inr (other, old) ↦ elim (update_cases v t _ w.sheets r y) [
            | inl (same', is') ↦ absurd (
                unset u s p old f
                  (some_eq (sym g ∙ sym (ap (λ (z : Sheet). z.cells) (some_eq is')))))
            | inr (other', old') ↦ h.apart u t p s r old old' f g
          ]
        ];
        held = λ p b x. elim (update_cases w.next p _ w.heap b x) [
          | inl (same, is) ↦ (omega arith, (v, _, update_self v _ w.sheets, ap some (sym same)))
          | inr (other, old) ↦
              let (small, (u, s, at, points)) = h.held p b old in
              (omega arith, (u, s, update_other v u _ w.sheets (live w v u s e at) ∙ at, points))
        ];
      }

  -- `delete[]` is defined on a sheet's own cells, and gives its block back.
  delete_lem :
      (heap : ℕ → Option (Block C)) (s : Sheet) (cells : Option ℕ)
      → Owns heap s cells
      → (next : ℕ → Option (Block C)) × (delete_cells s.width cells heap ≡ some next)
        × ((p : ℕ) → cells ≢ some p → next p ≡ heap p)
        × ((p : ℕ) → cells ≡ some p → next p ≡ none)
  unfolding delete_cells
  delete_lem heap s none (x, y, z) = (heap, rw x refl, (λ p f. refl), (λ p f. absurd (none_ne f)))
  delete_lem heap s (some q) (b, e, x, y) = (
    update q none heap,
    rw (e, (==_iff b.width s.width).1 x, delete_cells) refl,
    (λ p f. update_other q p none heap (λ same. f (ap some (sym same)))),
    (λ p f. rw (some_eq f) (update_self p none heap)),
  )

  pub destroy-IsValid :
      (v : ℕ) (s : Sheet) (w : World C)
      → w.sheets v ≡ some s
      → IsValid w
      → (w' : World C) × (destroy v w ≡ some w') × IsValid w' × (w'.sheets ≡ update v none w.sheets)
  unfolding destroy bind
  destroy-IsValid v s w e h =
      let (heap, freed, kept, gone) = delete_lem w.heap s s.cells (h.owned v s e) in
      let w' : World C = record w { heap = heap; sheets = update v none w.sheets } in
      (
        w',
        rw (e, freed) refl,
        record {
          owned = λ u t x. elim (update_cases v u none w.sheets t x) [
            | inl (same, is) ↦ absurd (none_ne is)
            | inr (other, old) ↦
                Owns-keep w.heap heap t t.cells
                  (λ p f. kept p (λ g. other (h.apart u v p t s old e f g))) (h.owned u t old)
          ];
          apart = λ u t p a b x y f g. elim (update_cases v u none w.sheets a x) [
            | inl (same, is) ↦ absurd (none_ne is)
            | inr (other, old) ↦ elim (update_cases v t none w.sheets b y) [
              | inl (same, is) ↦ absurd (none_ne is)
              | inr (other', old') ↦ h.apart u t p a b old old' f g
            ]
          ];
          held = λ p b x. elim (points_at s.cells p) [
            | inl own ↦ absurd (none_ne (sym (gone p own) ∙ x))
            | inr other ↦
                let (small, (u, t, at, points)) = h.held p b (sym (kept p other) ∙ x) in
                let apart : u ≢ v = λ same. other (
                  ap (λ (z : Sheet). z.cells) (some_eq (sym e ∙ ap w.sheets (sym same) ∙ at))
                  ∙ points) in
                (small, (u, t, update_other v u none w.sheets apart ∙ at, points))
          ];
        },
        refl,
      )
