-- ===== src/Kmp/Prefix.antt =====
-- any/kmp.cpp, `checkPrefixSuffix`: the table holds the longest border of each prefix.
use my_cpp_code.Common.{
  ℕ, zero, suc, ◌+◌, ◌-◌, ◌≤◌, ◌<◌, ◌≡◌, ◌⊎◌, refl, sym, ap, ◌∙◌, arith, false, List, [], ◌∷◌, some,
  ltb, ◌==◌, ==_iff, length, length-replicate, replicate, inl, inr, Bool-cases, Bytes,
}
use my_cpp_code.Kmp.{get_elem, set, shorten, prefixes, check_prefix_suffix}
use my_cpp_code.Kmp.Border.{
  Border, Longest, Border-zero, Border-restrict, Border-trans, Border-suc, Border-pred, length-set,
  get_elem-set,
}
use mathlib.Core.Option.{bind}

-- The table is right before `j`.
abbrev Done : Bytes → List ℕ → ℕ → Type 0
Done s nxt j = (t : ℕ) → t < j → Longest s (t + 1) (get_elem nxt t)

-- A border of the first `j` bytes that no extensible border exceeds.
abbrev Candidate : Bytes → ℕ → ℕ → Type 0
Candidate s j i = Border s j i × ((k : ℕ) → Border s j k → get_elem s k ≡ get_elem s j → k ≤ i)

abbrev Extended : Bytes → ℕ → ℕ → Type 0
Extended s j i = Candidate s j i × ((get_elem s i ≡ get_elem s j) ⊎ (i ≡ 0))

-- The next shorter border is still a candidate.
shorter :
    (s : Bytes) (nxt : List ℕ) (j i : ℕ)
    → Done s nxt j
    → Candidate s j i
    → 0 < i
    → (get_elem s i == get_elem s j) ≡ false
    → Candidate s j (get_elem nxt (i - 1)) × (get_elem nxt (i - 1) < i)
shorter s nxt j i done (b, most) pos ne =
    let i' = get_elem nxt (i - 1) in
    let back : i - 1 + 1 ≡ i = omega arith in
    let (b', best) = rw back at (done (i - 1) (omega (arith, b.0))) in
    (
      (
        Border-trans s j i i' b b',
        λ k bk e. best k (Border-restrict s j i k b bk (smaller k (most k bk e) e)),
      ),
      b'.0,
    )
  where
    smaller : (k : ℕ) → k ≤ i → get_elem s k ≡ get_elem s j → k < i
    smaller k le e = elim (Bool-cases (k == i)) [
      | inl same ↦ absurd (ground (arith, ap (get_elem s) ((==_iff k i).0 same)))
      | inr other ↦ ground arith
    ]

shorten_lem :
    (fuel : ℕ) (s : Bytes) (nxt : List ℕ) (j i : ℕ)
    → i < fuel
    → Done s nxt j
    → Candidate s j i
    → (r : ℕ) × (shorten fuel s nxt j i ≡ some r) × Extended s j r
unfolding shorten
shorten_lem zero s nxt j i h done c = absurd (omega arith)
shorten_lem (suc fuel) s nxt j i h done c = elim (Bool-cases (get_elem s i == get_elem s j)) [
  | inl same ↦ rw (same, shorten) (i, refl, (c, inl ((==_iff _ _).0 same)))
  | inr differ ↦ elim (Bool-cases (ltb 0 i)) [
    | inl pos ↦
        let (c', less) = shorter s nxt j i done c (ground arith) differ in
        rw (differ, pos, shorten)
          (shorten_lem fuel s nxt j (get_elem nxt (i - 1)) (omega arith) done c')
    | inr none_left ↦
        let e : i ≡ 0 = ground arith in rw (differ, none_left, shorten) (i, refl, (c, inr e))
  ]
]

Done-set :
    (s : Bytes) (nxt : List ℕ) (j v : ℕ)
    → j < length nxt
    → Done s nxt j
    → Longest s (j + 1) v
    → Done s (set nxt j v) (j + 1)
Done-set s nxt j v room done new t h = elim (Bool-cases (t == j)) [
  | inl last ↦
      let e : get_elem (set nxt j v) t ≡ v = ground (arith, get_elem-set nxt j v t room) in
      rw (e, (==_iff t j).0 last) new
  | inr before ↦
      let e : get_elem (set nxt j v) t ≡ get_elem nxt t =
        ground (arith, get_elem-set nxt j v t room) in
      rw e (done t (ground arith))
]

Longest-same :
    (s : Bytes) (j i : ℕ)
    → Candidate s j i
    → get_elem s i ≡ get_elem s j
    → Longest s (j + 1) (i + 1)
Longest-same s j i (b, most) e = (Border-suc s j i b e, below)
  where
    below : (k : ℕ) → Border s (j + 1) k → k ≤ i + 1
    below zero bk = omega arith
    below (suc k) bk = let (bk', same) = Border-pred s j k bk in omega (arith, most k bk' same)

Longest-none :
    (s : Bytes) (j i : ℕ)
    → Candidate s j i
    → i ≡ 0
    → (get_elem s i == get_elem s j) ≡ false
    → Longest s (j + 1) 0
Longest-none s j i (b, most) e differ = (Border-zero s (j + 1) (omega arith), below)
  where
    below : (k : ℕ) → Border s (j + 1) k → k ≤ 0
    below zero bk = omega arith
    below (suc k) bk =
        let (bk', same) = Border-pred s j k bk in
        let small = most k bk' same in
        let one : k ≡ i = omega (arith, small) in absurd (ground (arith, same, ap (get_elem s) one))

stopped :
    (s : Bytes) (i j : ℕ)
    → (get_elem s i ≡ get_elem s j) ⊎ (i ≡ 0)
    → (get_elem s i == get_elem s j) ≡ false
    → i ≡ 0
stopped s i j (inl e) differ = absurd (ground arith)
stopped s i j (inr z) differ = z

-- One byte has no border but the empty one.
first_Longest : (s : Bytes) → Longest s 1 0
first_Longest s = (Border-zero s 1 (omega arith), λ k b. omega (arith, b.0))

-- One round of the `for` loop, after the `while` loop has stopped at `i`.
Round : ℕ → Bytes → Type 0
Round rounds s =
    (nxt : List ℕ) (i j : ℕ)
    → length nxt ≡ length s
    → j + rounds ≡ length s
    → Done s nxt j
    → Candidate s j i
    → (r : List ℕ) × (prefixes rounds s nxt i j ≡ some r)
      × (length r ≡ length s)
      × Done s r (length s)

prefixes_lem : (rounds : ℕ) (s : Bytes) → Round rounds s
unfolding Round prefixes bind
prefixes_lem zero s nxt i j size left done c =
    let e : j ≡ length s = omega arith in (nxt, refl, size, rw (sym e) done)
prefixes_lem (suc rounds) s nxt i j size left done c =
    let (i', e, (c', stop)) = shorten_lem (length s) s nxt j i (omega (arith, c.0.0)) done c in
    let room : j < length nxt = omega arith in
    elim (Bool-cases (get_elem s i' == get_elem s j)) [
      | inl same ↦
          let new = Longest-same s j i' c' ((==_iff _ _).0 same) in
          rw (e, bind, same)
            (prefixes_lem rounds s (set nxt j (i' + 1)) (i' + 1) (j + 1)
              (length-set nxt j (i' + 1) ∙ size) (omega arith)
              (Done-set s nxt j (i' + 1) room done new) (new.0, λ k b f. new.1 k b))
      | inr differ ↦
          let none_left : i' ≡ 0 = stopped s i' j stop differ in
          let new = Longest-none s j i' c' none_left differ in
          rw (e, bind, differ)
            (prefixes_lem rounds s (set nxt j 0) i' (j + 1) (length-set nxt j 0 ∙ size)
              (omega arith) (Done-set s nxt j 0 room done new)
              (rw none_left (new.0, λ k b f. new.1 k b)))
    ]

-- `checkPrefixSuffix` returns for every string, and its table has, for each position, the length
-- of the longest proper border of the prefix that ends there.
pub check_prefix_suffix-Longest :
    (str : Bytes)
    → (nxt : List ℕ) × (check_prefix_suffix str ≡ some nxt)
      × (length nxt ≡ length str)
      × ((t : ℕ) → t < length str → Longest str (t + 1) (get_elem nxt t))
unfolding check_prefix_suffix prefixes Round
check_prefix_suffix-Longest [] = ([], refl, refl, λ t h. absurd (omega arith))
check_prefix_suffix-Longest (c ∷ s) =
    let n = length s in
    let str = c ∷ s in
    let e : suc n - 1 ≡ n = omega arith in
    let first : Longest str 1 0 = first_Longest str in
    rw e (
      prefixes_lem n str (0 ∷ replicate n 0) 0 1 (ap suc (length-replicate n 0)) (omega arith)
        (λ t h. let z : t ≡ 0 = omega arith in rw z first) (first.0, λ k b f. first.1 k b))
