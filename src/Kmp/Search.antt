-- ===== src/Kmp/Search.antt =====
-- any/kmp.cpp, the class `KMP`: the table of `initNext`, and what `find` returns with it.
use my_cpp_code.Common.{
  ℕ, zero, suc, ◌+◌, ◌-◌, ◌≤◌, ◌<◌, ◌≡◌, ◌≢◌, refl, arith, not, ◌&&◌, List, [], ◌∷◌, none, some,
  ltb, ◌==◌, length, length-drop, replicate, drop, inl, inr, Bool-cases, Option-cases, Bytes,
}
use my_cpp_code.Kmp.{get_elem, set, shorten_next, next_loop, init_next, find_from, find}
use mathlib.Core.Option.{bind, some-injective}
use mathlib.Core.Path.{subst}

-- No entry exceeds its index.
abbrev Backward : List ℕ → Type 0
Backward nxt = (t : ℕ) → get_elem nxt t ≤ t

Backward-replicate : (n : ℕ) → Backward (replicate n 0)
Backward-replicate zero t = omega arith
Backward-replicate (suc n) zero = omega arith
Backward-replicate (suc n) (suc t) = omega (arith, Backward-replicate n t)

set_le :
    (b : ℕ) (nxt : List ℕ) (j v : ℕ)
    → v ≤ b + j
    → ((t : ℕ) → get_elem nxt t ≤ b + t)
    → (t : ℕ) → get_elem (set nxt j v) t ≤ b + t
set_le b [] j v le h t = omega arith
set_le b (x ∷ nxt) zero v le h zero = omega arith
set_le b (x ∷ nxt) zero v le h (suc t) = h (suc t)
set_le b (x ∷ nxt) (suc j) v le h zero = h zero
set_le b (x ∷ nxt) (suc j) v le h (suc t) =
    omega (arith, set_le (suc b) nxt j v (omega arith) (λ k. omega (arith, h (suc k))) t)

Backward-set : (nxt : List ℕ) (j v : ℕ) → v ≤ j → Backward nxt → Backward (set nxt j v)
Backward-set nxt j v le back =
    λ t. omega (arith, set_le 0 nxt j v (omega arith) (λ k. omega (arith, back k)) t)

shorten_next-le :
    (fuel : ℕ) (p : Bytes) (nxt : List ℕ) (j i r : ℕ)
    → Backward nxt
    → shorten_next fuel p nxt j i ≡ some r
    → r ≤ i
unfolding shorten_next
shorten_next-le zero p nxt j i r back = λ e. cc
shorten_next-le (suc fuel) p nxt j i r back =
    elim (Bool-cases (not (get_elem p i == get_elem p j) && ltb 0 i)) [
      | inl more ↦
          rw (more, shorten_next)
            (λ e.
              let h = shorten_next-le fuel p nxt j (get_elem nxt i) r back e in
              omega (arith, h, back i))
      | inr stop ↦ rw (stop, shorten_next) (λ e. ground arith)
    ]

next_loop-Backward :
    (fuel rounds : ℕ) (p : Bytes) (nxt : List ℕ) (i j : ℕ) (r : List ℕ)
    → i < j
    → Backward nxt
    → next_loop fuel rounds p nxt i j ≡ some r
    → Backward r
unfolding next_loop bind
next_loop-Backward fuel zero p nxt i j r less back =
    λ e. subst Backward (some-injective nxt r e) back
next_loop-Backward fuel (suc rounds) p nxt i j r less back =
    elim (Option-cases (shorten_next fuel p nxt j i)) [
      | inl e ↦ rw (e, bind) (λ f. cc)
      | inr (i', e) ↦
          let le = shorten_next-le fuel p nxt j i i' back e in
          elim (Bool-cases (get_elem p i' == get_elem p j)) [
            | inl same ↦
                rw (e, bind, same)
                  (next_loop-Backward fuel rounds p (set nxt j (i' + 1)) (i' + 1) (j + 1) r
                    (omega (arith, le)) (Backward-set nxt j (i' + 1) (omega (arith, le)) back))
            | inr differ ↦
                rw (e, bind, differ)
                  (next_loop-Backward fuel rounds p nxt i' (j + 1) r (omega (arith, le)) back)
          ]
    ]

init_next-Backward :
    (fuel : ℕ) (p : Bytes) (nxt : List ℕ) → init_next fuel p ≡ some nxt → Backward nxt
unfolding init_next
init_next-Backward fuel p nxt =
    next_loop-Backward fuel (length p - 1) p (replicate (length p) 0) 0 1 nxt (omega arith)
      (Backward-replicate (length p))

find_from-bounds :
    (s p : Bytes) (nxt : List ℕ) (ist i j r : ℕ)
    → Backward nxt
    → ist + j ≤ i
    → find_from s p nxt i j ≡ some r
    → (ist ≤ r) × (r + length p ≤ i + length s)
unfolding find_from
find_from-bounds [] p nxt ist i j r back le = λ e. cc
find_from-bounds (c ∷ s) p nxt ist i j r back le = elim (Bool-cases (c == get_elem p j)) [
  | inl same ↦ elim (Bool-cases (j + 1 == length p)) [
    | inl whole ↦ rw (same, whole, find_from) (λ e. ground arith)
    | inr more ↦
        rw (same, more, find_from)
          (λ e.
            let (lo, hi) = find_from-bounds s p nxt ist (i + 1) (j + 1) r back (omega arith) e in
            (lo, omega (arith, hi)))
  ]
  | inr differ ↦
      rw (differ, find_from)
        (λ e.
          let (lo, hi) =
            find_from-bounds s p nxt ist (i + 1) (get_elem nxt j) r back (omega (arith, back j))
              e in
          (lo, omega (arith, hi)))
]

-- When `initNext` returns a table and the search begins inside the string, what `find` returns
-- is a position from `ist` on where the pattern still fits in the string.
pub find-init_next_bounds :
    (fuel : ℕ) (s p : Bytes) (nxt : List ℕ) (ist r : ℕ)
    → ist ≤ length s
    → init_next fuel p ≡ some nxt
    → find s p nxt ist ≡ some r
    → (ist ≤ r) × (r + length p ≤ length s)
unfolding find
find-init_next_bounds fuel s p nxt ist r small made e =
    let back = init_next-Backward fuel p nxt made in
    let (lo, hi) = find_from-bounds (drop ist s) p nxt ist ist 0 r back (omega arith) e in
    (lo, omega (arith, hi, length-drop ist s))

stuck :
    (fuel x y : ℕ) (rest zs : List ℕ)
    → x ≢ y
    → shorten_next fuel (x ∷ x ∷ y ∷ rest) (0 ∷ 1 ∷ zs) 2 1 ≡ none
unfolding shorten_next
stuck zero x y rest zs ne = refl
stuck (suc fuel) x y rest zs ne = ground (arith, stuck fuel x y rest zs ne)

-- `initNext` does not return on a pattern that begins with a doubled byte and then another: for
-- no amount of fuel is there a result.
pub init_next-stuck :
    (fuel x y : ℕ) (rest : Bytes) → x ≢ y → init_next fuel (x ∷ x ∷ y ∷ rest) ≡ none
unfolding init_next next_loop bind shorten_next
init_next-stuck zero x y rest ne =
    let e : suc (suc (suc (length rest))) - 1 ≡ suc (suc (length rest)) = omega arith in rw e refl
init_next-stuck (suc fuel) x y rest ne =
    let e : suc (suc (suc (length rest))) - 1 ≡ suc (suc (length rest)) = omega arith in
    rw e (ground (arith, stuck (suc fuel) x y rest (0 ∷ replicate (length rest) 0) ne))
