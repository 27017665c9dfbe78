-- ===== src/Parallel/Ranges.antt =====
-- parallel_find_accu_async_for_each.cpp: the pieces lie in the container, meet end to start and cover it.
use my_cpp_code.Common.{
  ℕ, zero, suc, ◌+◌, ◌-◌, ◌*◌, ◌/◌, ◌^◌, ◌≤◌, ◌<◌, ◌≡◌, refl, ap, sym, ◌∙◌, arith, min, false, List,
  [], ◌∷◌, ◌++◌, map, some, ltb, ◌==◌, length, slice, slice_self, slice-all, All, All-append, inl,
  inr, Bool-cases,
}
use my_cpp_code.Parallel.{
  Range, num_threads, blocks, ranges, parallel_for_each, async_ranges, parallel_for_each_async,
}
use mathlib.Core.List.{flatten}
use mathlib.Core.Option.{bind}
use native.Mathlib.Nat.{div-mul-le_self, le-div_iff_mul-le}

-- Neighbouring pieces of a list join.
slice-join :
    {A : Type 0} (l : List A) (a b c : ℕ) → a ≤ b → b ≤ c → slice l a b ++ slice l b c ≡ slice l a c
slice-join [] a b c h k = refl
slice-join (x ∷ l) zero zero c h k = refl
slice-join (x ∷ l) (suc a) zero c h k = absurd (omega arith)
slice-join (x ∷ l) a (suc b) zero h k = absurd (omega arith)
slice-join (x ∷ l) zero (suc b) (suc c) h k =
    ap (◌∷◌ x) (slice-join l zero b c (omega arith) (omega arith))
slice-join (x ∷ l) (suc a) (suc b) (suc c) h k = slice-join l a b c (omega arith) (omega arith)

-- Non-empty hulls that start at `st`, end at `lst` and meet.
abbrev pub Cover : ℕ → List Range → ℕ → Type 0
Cover st [] lst = st ≡ lst
Cover st (r ∷ rs) lst = (r.0 ≡ st) × (st ≤ r.1) × Cover r.1 rs lst

pub Cover-le : (st : ℕ) (rs : List Range) (lst : ℕ) → Cover st rs lst → st ≤ lst
Cover-le st [] lst c = omega arith
Cover-le st ((a, b) ∷ rs) lst (e, le, c) = omega (arith, le, Cover-le b rs lst c)

Cover-append :
    (st md lst : ℕ) (rs qs : List Range)
    → Cover st rs md
    → Cover md qs lst
    → Cover st (rs ++ qs) lst
Cover-append st md lst [] qs e d = rw e d
Cover-append st md lst ((a, b) ∷ rs) qs (e, le, c) d = (e, le, Cover-append b md lst rs qs c d)

pub Cover-flatten :
    {A : Type 0} (l : List A) (st : ℕ) (rs : List Range) (lst : ℕ)
    → Cover st rs lst
    → flatten (map (λ r. slice l r.0 r.1) rs) ≡ slice l st lst
unfolding flatten
Cover-flatten l st [] lst e = rw e (sym (slice_self l lst))
Cover-flatten l st ((a, b) ∷ rs) lst (e, le, c) =
    rw (e, Cover-flatten l b rs lst c) (slice-join l st b lst le (Cover-le b rs lst c))

blocks-Cover :
    (i block_size st lst : ℕ)
    → st + i * block_size ≤ lst
    → Cover st (blocks i block_size st lst) lst
unfolding blocks
blocks-Cover zero block_size st lst h = (refl, omega arith, refl)
blocks-Cover (suc i) block_size st lst h =
    (refl, omega arith, blocks-Cover i block_size (st + block_size) lst (omega arith))

num_threads-pos : (hardware size : ℕ) → 0 < size → size < 2 ^ 63 → 0 < num_threads hardware size
unfolding num_threads
num_threads-pos hardware size pos small = ground arith

product_le : (n w : ℕ) → 0 < w → (w - 1) * (n / w) ≤ n
product_le n zero pos = absurd (omega arith)
product_le n (suc v) pos =
    let e : suc v - 1 ≡ v = omega arith in rw e (grind (arith, div-mul-le_self n (suc v)))

pub ranges-Cover :
    (hardware size : ℕ) → 0 < size → size < 2 ^ 63 → Cover 0 (ranges hardware size) size
unfolding ranges
ranges-Cover hardware size pos small =
    let w = num_threads hardware size in
    blocks-Cover (w - 1) (size / w) 0 size
      (omega (arith, product_le size w (num_threads-pos hardware size pos small)))

-- On fewer than 2 ^ 63 elements `parallel_for_each` hands every element to one thread: the
-- threads' elements, one thread after another, are the container.
pub flatten-parallel_for_each :
    (A : Type 0) (hardware : ℕ) (l : List A)
    → length l < 2 ^ 63
    → flatten (parallel_for_each hardware l) ≡ l
unfolding parallel_for_each ranges num_threads flatten
flatten-parallel_for_each A hardware [] small = refl
flatten-parallel_for_each A hardware (x ∷ l) small =
    let n = length (x ∷ l) in
    let nonempty : (n == 0) ≡ false = ground arith in
    rw (nonempty, parallel_for_each)
      (Cover-flatten (x ∷ l) 0 (ranges hardware n) n (ranges-Cover hardware n (omega arith) small)
        ∙ slice-all (x ∷ l) n refl)

length-blocks : (i block_size st lst : ℕ) → length (blocks i block_size st lst) ≡ suc i
unfolding blocks
length-blocks zero block_size st lst = refl
length-blocks (suc i) block_size st lst = ap suc (length-blocks i block_size (st + block_size) lst)

pub length-ranges :
    (hardware size : ℕ)
    → 0 < size
    → size < 2 ^ 63
    → length (ranges hardware size) ≡ num_threads hardware size
unfolding ranges
length-ranges hardware size pos small =
    let w = num_threads hardware size in
    omega (arith, num_threads-pos hardware size pos small, length-blocks (w - 1) (size / w) 0 size)

block_bound : (size w : ℕ) → 1 < w → w ≤ (size + 24) / 25 → 13 ≤ size / w
block_bound size w many few =
    let h = (le-div_iff_mul-le {k = 25} {x = w} {y = size + 24} (omega arith)).0 few in
    (le-div_iff_mul-le {k = w} {x = 13} {y = size} (omega arith)).1 (omega (arith, h))

-- Where there is more than one thread, each gets at least 13 elements; 25 would be the number asked for.
pub block_size-lower :
    (hardware size : ℕ)
    → size < 2 ^ 63
    → 1 < num_threads hardware size
    → 13 ≤ size / num_threads hardware size
unfolding num_threads
block_size-lower hardware size small many =
    block_bound size (num_threads hardware size) many (ground arith)

-- A piece of `parallel_for_each_async`.
abbrev pub Piece : ℕ → Range → Type 0
Piece least r = (least ≤ r.1 - r.0) × (r.1 - r.0 < 50)

pub async_ranges_lem :
    (least fuel fst lst : ℕ)
    → lst - fst < fuel
    → fst < lst
    → least ≡ min 25 (lst - fst)
    → (rs : List Range) × (async_ranges fuel fst lst ≡ some rs)
      × Cover fst rs lst
      × All (Piece least) rs
unfolding async_ranges bind
async_ranges_lem least zero fst lst h less k = absurd (omega arith)
async_ranges_lem least (suc fuel) fst lst h less k =
    let nonempty : (lst - fst == 0) ≡ false = ground arith in
    elim (Bool-cases (ltb (lst - fst) (2 * 25))) [
      | inl small ↦
          rw (nonempty, small, async_ranges)
            ((fst, lst) ∷ [], refl, (refl, omega arith, refl), ((omega arith, ground arith), tt))
      | inr large ↦
          let md = fst + (lst - fst) / 2 in
          let room : 50 ≤ lst - fst = ground arith in
          let (rs, e, c, p) =
            async_ranges_lem least fuel fst md (omega arith) (omega arith) (omega arith) in
          let (qs, f, d, q) =
            async_ranges_lem least fuel md lst (omega arith) (omega arith) (omega arith) in
          rw (nonempty, large, e, f, bind, async_ranges)
            (rs ++ qs, refl, Cover-append fst md lst rs qs c d, All-append (Piece least) rs qs p q)
    ]

-- `parallel_for_each_async` returns: with fuel beyond the length it cuts a non-empty container
-- into pieces of fewer than 50 elements, of at least 25 unless the container is shorter, and the
-- pieces, one after another, are the container.
pub flatten-parallel_for_each_async :
    (A : Type 0) (fuel : ℕ) (l : List A)
    → length l < fuel
    → 0 < length l
    → (rs : List Range) × (parallel_for_each_async fuel l ≡ some (map (λ r. slice l r.0 r.1) rs))
      × (flatten (map (λ r. slice l r.0 r.1) rs) ≡ l)
      × All (Piece (min 25 (length l))) rs
unfolding parallel_for_each_async bind
flatten-parallel_for_each_async A fuel l room pos =
    let n = length l in
    let (rs, e, c, p) = async_ranges_lem (min 25 n) fuel 0 n (omega arith) pos (omega arith) in
    (rs, rw (e, bind) refl, Cover-flatten l 0 rs n c ∙ slice-all l n refl, p)
