-- ===== src/Common/Slices.antt =====
-- Arrays: a half-open range of a list, writing over a part of a list, and growing a list.
use Prim.Native.Nat.{ℕ, zero, suc, ◌+◌, ◌-◌, ◌≤◌}
use mathlib.Core.Path.{◌≡◌, refl, ap, sym, ◌∙◌}
use mathlib.Core.List.{List, [], ◌∷◌, ◌++◌}
use native.Mathlib.Omega.{arith}
use my_cpp_code.Common.Lists.{length, take, drop, replicate, length-append, length-take}
use my_cpp_code.Common.Lists.{length-replicate, take-length_le}

module _ {ℓ} {A : Type ℓ} where
  -- The elements at the indices `from ≤ i < to`.
  abbrev pub slice : List A → ℕ → ℕ → List A
  slice [] from to = []
  slice (x ∷ xs) from zero = []
  slice (x ∷ xs) zero (suc to) = x ∷ slice xs zero to
  slice (x ∷ xs) (suc from) (suc to) = slice xs from to

  -- The first elements replaced; what does not fit is dropped.
  abbrev pub overlay : List A → List A → List A
  overlay [] ys = []
  overlay (x ∷ xs) [] = x ∷ xs
  overlay (x ∷ xs) (y ∷ ys) = y ∷ overlay xs ys

  -- `std::copy` of the elements to an index; a write behind the end changes nothing.
  abbrev pub overwrite : List A → ℕ → List A → List A
  overwrite xs zero ys = overlay xs ys
  overwrite [] (suc i) ys = []
  overwrite (x ∷ xs) (suc i) ys = x ∷ overwrite xs i ys

  -- `std::vector::resize`, which fills with the given element.
  abbrev pub resize : List A → ℕ → A → List A
  resize xs n a = take n xs ++ replicate (n - length xs) a

  pub length-overlay : (xs ys : List A) → length (overlay xs ys) ≡ length xs
  length-overlay [] ys = refl
  length-overlay (x ∷ xs) [] = refl
  length-overlay (x ∷ xs) (y ∷ ys) = ap suc (length-overlay xs ys)

  pub length-overwrite :
      (xs : List A) (i : ℕ) (ys : List A) → length (overwrite xs i ys) ≡ length xs
  length-overwrite xs zero ys = length-overlay xs ys
  length-overwrite [] (suc i) ys = refl
  length-overwrite (x ∷ xs) (suc i) ys = ap suc (length-overwrite xs i ys)

  pub length-resize : (xs : List A) (n : ℕ) (a : A) → length (resize xs n a) ≡ n
  length-resize xs n a = omega (
    arith,
    length-append (take n xs) (replicate (n - length xs) a),
    length-take n xs,
    length-replicate (n - length xs) a,
  )

  pub length-slice :
      (xs : List A) (from to : ℕ) → to ≤ length xs → length (slice xs from to) ≡ to - from
  length-slice [] from to h = omega arith
  length-slice (x ∷ xs) from zero h = omega arith
  length-slice (x ∷ xs) zero (suc to) h = omega (arith, length-slice xs zero to)
  length-slice (x ∷ xs) (suc from) (suc to) h = omega (arith, length-slice xs from to)

  pub slice_self : (xs : List A) (i : ℕ) → slice xs i i ≡ []
  slice_self [] i = refl
  slice_self (x ∷ xs) zero = refl
  slice_self (x ∷ xs) (suc i) = slice_self xs i

  pub slice-le : (xs : List A) (from to : ℕ) → to ≤ from → slice xs from to ≡ []
  slice-le [] from to h = refl
  slice-le (x ∷ xs) from zero h = refl
  slice-le (x ∷ xs) zero (suc to) h = absurd (omega arith)
  slice-le (x ∷ xs) (suc from) (suc to) h = slice-le xs from to (omega arith)

  pub slice-zero : (xs : List A) (n : ℕ) → slice xs 0 n ≡ take n xs
  slice-zero [] zero = refl
  slice-zero [] (suc n) = refl
  slice-zero (x ∷ xs) zero = refl
  slice-zero (x ∷ xs) (suc n) = ap (◌∷◌ x) (slice-zero xs n)

  pub drop-slice :
      (n : ℕ) (xs : List A) (from to : ℕ)
      → from + n ≤ to
      → drop n (slice xs from to) ≡ slice xs (from + n) to
  drop-slice n [] from to h = drop-nil n
    where
      drop-nil : (k : ℕ) → drop {A = A} k [] ≡ []
      drop-nil zero = refl
      drop-nil (suc k) = refl
  drop-slice zero (x ∷ xs) from to h = ap (λ k. slice (x ∷ xs) k to) (omega arith)
  drop-slice (suc n) (x ∷ xs) from zero h = absurd (omega arith)
  drop-slice (suc n) (x ∷ xs) zero (suc to) h =
      rw (drop-slice n xs zero to (omega arith)) (ground arith)
  drop-slice (suc n) (x ∷ xs) (suc from) (suc to) h =
      rw (drop-slice (suc n) xs from to (omega arith)) (ground arith)

  pub take-slice :
      (n : ℕ) (xs : List A) (from to : ℕ)
      → from + n ≤ to
      → take n (slice xs from to) ≡ slice xs from (from + n)
  take-slice zero xs from to h = ground (arith, slice-le xs from (from + 0))
  take-slice (suc n) [] from to h = refl
  take-slice (suc n) (x ∷ xs) from zero h = absurd (omega arith)
  take-slice (suc n) (x ∷ xs) zero (suc to) h = ground (arith, take-slice n xs zero to)
  take-slice (suc n) (x ∷ xs) (suc from) (suc to) h = ground (arith, take-slice (suc n) xs from to)

  take-nil : (n : ℕ) → take {A = A} n [] ≡ []
  take-nil zero = refl
  take-nil (suc n) = refl

  pub take-drop-slice :
      (xs : List A) (from to : ℕ) → from ≤ to → take (to - from) (drop from xs) ≡ slice xs from to
  take-drop-slice [] zero to h = take-nil (to - 0)
  take-drop-slice [] (suc from) to h = take-nil (to - suc from)
  take-drop-slice (x ∷ xs) zero zero h = refl
  take-drop-slice (x ∷ xs) zero (suc to) h =
      ap (λ k. take k (x ∷ xs)) {y = suc to} (omega arith) ∙ ap (◌∷◌ x) (sym (slice-zero xs to))
  take-drop-slice (x ∷ xs) (suc from) zero h = absurd (omega arith)
  take-drop-slice (x ∷ xs) (suc from) (suc to) h =
      ap (λ k. take k (drop from xs)) (omega arith) ∙ take-drop-slice xs from to (omega arith)

  pub overlay-append_length :
      (xs ys : List A) → length ys ≤ length xs → overlay xs ys ≡ ys ++ drop (length ys) xs
  overlay-append_length [] [] h = refl
  overlay-append_length [] (y ∷ ys) h = absurd (omega arith)
  overlay-append_length (x ∷ xs) [] h = refl
  overlay-append_length (x ∷ xs) (y ∷ ys) h = ap (◌∷◌ y) (overlay-append_length xs ys (omega arith))

  take-overlay :
      (xs ys : List A) (n : ℕ)
      → length ys ≤ length xs
      → n ≡ length ys
      → slice (overlay xs ys) 0 n ≡ ys
  take-overlay [] [] n h e = refl
  take-overlay [] (y ∷ ys) n h e = absurd (omega arith)
  take-overlay (x ∷ xs) [] zero h e = refl
  take-overlay (x ∷ xs) [] (suc n) h e = absurd (omega arith)
  take-overlay (x ∷ xs) (y ∷ ys) zero h e = absurd (omega arith)
  take-overlay (x ∷ xs) (y ∷ ys) (suc n) h e =
      ap (◌∷◌ y) (take-overlay xs ys n (omega arith) (omega arith))

  -- What is written at an index stands there.
  pub slice-overwrite_self :
      (xs ys : List A) (i to : ℕ)
      → i + length ys ≤ length xs
      → to ≡ i + length ys
      → slice (overwrite xs i ys) i to ≡ ys
  slice-overwrite_self xs ys zero to h e = take-overlay xs ys to (omega arith) (omega arith)
  slice-overwrite_self [] [] (suc i) to h e = refl
  slice-overwrite_self [] (y ∷ ys) (suc i) to h e = absurd (omega arith)
  slice-overwrite_self (x ∷ xs) ys (suc i) zero h e = absurd (omega arith)
  slice-overwrite_self (x ∷ xs) ys (suc i) (suc to) h e =
      slice-overwrite_self xs ys i to (omega arith) (omega arith)

  -- Writing at the end of a range extends it by what is written.
  pub slice-overwrite_end :
      (xs ys : List A) (from i to : ℕ)
      → from ≤ i
      → i + length ys ≤ length xs
      → to ≡ i + length ys
      → slice (overwrite xs i ys) from to ≡ slice xs from i ++ ys
  slice-overwrite_end xs ys from zero to h k e =
      ground (arith, slice-le xs from 0, take-overlay xs ys to)
  slice-overwrite_end [] [] from (suc i) to h k e = refl
  slice-overwrite_end [] (y ∷ ys) from (suc i) to h k e = absurd (omega arith)
  slice-overwrite_end (x ∷ xs) ys zero (suc i) zero h k e = absurd (omega arith)
  slice-overwrite_end (x ∷ xs) ys zero (suc i) (suc to) h k e =
      ap (◌∷◌ x) (slice-overwrite_end xs ys zero i to (omega arith) (omega arith) (omega arith))
  slice-overwrite_end (x ∷ xs) ys (suc from) (suc i) zero h k e = absurd (omega arith)
  slice-overwrite_end (x ∷ xs) ys (suc from) (suc i) (suc to) h k e =
      slice-overwrite_end xs ys from i to (omega arith) (omega arith) (omega arith)

  overlay-take : (xs ys : List A) → overlay xs ys ≡ overlay xs (take (length xs) ys)
  overlay-take [] ys = refl
  overlay-take (x ∷ xs) [] = refl
  overlay-take (x ∷ xs) (y ∷ ys) = ap (◌∷◌ y) (overlay-take xs ys)

  -- A write that does not fit keeps its first part.
  pub overwrite-take :
      (xs ys : List A) (i : ℕ) → overwrite xs i ys ≡ overwrite xs i (take (length xs - i) ys)
  overwrite-take xs ys zero = overlay-take xs ys ∙ ap (λ k. overlay xs (take k ys)) (omega arith)
  overwrite-take [] ys (suc i) = refl
  overwrite-take (x ∷ xs) ys (suc i) =
      ap (◌∷◌ x) (overwrite-take xs ys i ∙ ap (λ k. overwrite xs i (take k ys)) (omega arith))

  pub slice-append :
      (xs ys : List A) (from to : ℕ) → to ≤ length xs → slice (xs ++ ys) from to ≡ slice xs from to
  slice-append [] ys from zero h = slice-le ys from 0 (omega arith)
  slice-append [] ys from (suc to) h = absurd (omega arith)
  slice-append (x ∷ xs) ys from zero h = refl
  slice-append (x ∷ xs) ys zero (suc to) h = ap (◌∷◌ x) (slice-append xs ys zero to (omega arith))
  slice-append (x ∷ xs) ys (suc from) (suc to) h = slice-append xs ys from to (omega arith)

  pub slice-resize :
      (xs : List A) (n : ℕ) (a : A) (from to : ℕ)
      → to ≤ length xs
      → length xs ≤ n
      → slice (resize xs n a) from to ≡ slice xs from to
  slice-resize xs n a from to h k =
      rw (take-length_le n xs k) (slice-append xs (replicate (n - length xs) a) from to h)

  -- The two branches of an optional growth: a longer list holds the same range.
  pub slice-overwrite_back :
      (xs : List A) (from to i : ℕ)
      → i ≤ from
      → from ≤ to
      → to ≤ length xs
      → slice (overwrite xs i (slice xs from to)) i (i + (to - from)) ≡ slice xs from to
  slice-overwrite_back xs from to i h k e =
      slice-overwrite_self xs (slice xs from to) i (i + (to - from))
        (omega (arith, length-slice xs from to e)) (omega (arith, length-slice xs from to e))

  pub slice-all : (xs : List A) (to : ℕ) → to ≡ length xs → slice xs 0 to ≡ xs
  slice-all [] to e = refl
  slice-all (x ∷ xs) zero e = absurd (omega arith)
  slice-all (x ∷ xs) (suc to) e = ap (◌∷◌ x) (slice-all xs to (omega arith))

  -- The end of two parts.
  pub slice-append_end :
      (pre mid : List A) (from to : ℕ)
      → from ≡ length pre
      → to ≡ from + length mid
      → slice (pre ++ mid) from to ≡ mid
  slice-append_end [] mid zero to e f = slice-all mid to (omega arith)
  slice-append_end [] mid (suc from) to e f = absurd (omega arith)
  slice-append_end (x ∷ pre) mid zero to e f = absurd (omega arith)
  slice-append_end (x ∷ pre) mid (suc from) zero e f = absurd (omega arith)
  slice-append_end (x ∷ pre) mid (suc from) (suc to) e f =
      slice-append_end pre mid from to (omega arith) (omega arith)

  -- The middle of three parts.
  pub slice-append_middle :
      (pre mid rest : List A) (from to : ℕ)
      → from ≡ length pre
      → to ≡ from + length mid
      → slice (pre ++ (mid ++ rest)) from to ≡ mid
  slice-append_middle [] mid rest zero to e f =
      slice-append mid rest 0 to (omega arith) ∙ slice-all mid to (omega arith)
  slice-append_middle [] mid rest (suc from) to e f = absurd (omega arith)
  slice-append_middle (x ∷ pre) mid rest zero to e f = absurd (omega arith)
  slice-append_middle (x ∷ pre) mid rest (suc from) zero e f = absurd (omega arith)
  slice-append_middle (x ∷ pre) mid rest (suc from) (suc to) e f =
      slice-append_middle pre mid rest from to (omega arith) (omega arith)

  take-overlay_append :
      (xs u w : List A) (n : ℕ) → n ≡ length u → n ≤ length xs → take n (overlay xs (u ++ w)) ≡ u
  take-overlay_append xs [] w zero e h = refl
  take-overlay_append xs [] w (suc n) e h = absurd (omega arith)
  take-overlay_append xs (y ∷ u) w zero e h = absurd (omega arith)
  take-overlay_append [] (y ∷ u) w (suc n) e h = absurd (omega arith)
  take-overlay_append (x ∷ xs) (y ∷ u) w (suc n) e h =
      ap (◌∷◌ y) (take-overlay_append xs u w n (omega arith) (omega arith))

  -- The first part of what was written behind a prefix.
  pub take-overwrite_append :
      (xs u w : List A) (i n : ℕ)
      → n ≡ i + length u
      → n ≤ length xs
      → take n (overwrite xs i (u ++ w)) ≡ take i xs ++ u
  take-overwrite_append xs u w zero n e h = take-overlay_append xs u w n (omega arith) h
  take-overwrite_append xs u w (suc i) zero e h = absurd (omega arith)
  take-overwrite_append [] u w (suc i) (suc n) e h = absurd (omega arith)
  take-overwrite_append (x ∷ xs) u w (suc i) (suc n) e h =
      ap (◌∷◌ x) (take-overwrite_append xs u w i n (omega arith) (omega arith))
