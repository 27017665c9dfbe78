-- ===== src/Parallel/FindAsync/Invariant.antt =====
-- parallel_find_accu_async_for_each.cpp, `parallel_find_async`: what a step of a call keeps.
use my_cpp_code.Common.{
  ℕ, ◌+◌, ◌≤◌, ◌<◌, ◌≡◌, ◌⊎◌, inl, inr, refl, arith, Bool, true, false, List, [], ◌∷◌, ltb, ◌==◌,
  Bool-cases,
}
use my_cpp_code.Parallel.FindAsync.{
  Status, testing, comparing, storing, finished, Call, scan, cut, advance, step, run,
}

module _ (hit : ℕ → Bool) where
  abbrev pub Clear : ℕ → ℕ → Type 0
  Clear a b = (p : ℕ) → a ≤ p → p < b → hit p ≡ false

  -- What a call on the range from `a` to `b` may have found so far.
  abbrev pub Looped : Bool → (a fst lst : ℕ) → Status → Type 0
  Looped done a fst lst testing = (a ≤ fst) × (fst ≤ lst) × Clear a fst
  Looped done a fst lst comparing = (a ≤ fst) × (fst < lst) × Clear a fst
  Looped done a fst lst storing = (a ≤ fst) × (fst < lst) × (hit fst ≡ true)
  Looped done a fst lst (finished p) =
      ((a ≤ p) × (p < lst) × (hit p ≡ true)) ⊎ ((p ≡ lst) × ((done ≡ true) ⊎ Clear a lst))

  abbrev pub Ok : Bool → ℕ → ℕ → Call → Type 0
  Ok done a b (scan fst lst v) = (lst ≡ b) × Looped done a fst lst v
  Ok done a b (cut md own other) = (a ≤ md) × (md ≤ b) × Ok done a md own × Ok done md b other

  abbrev pub Stopped : ℕ → Status → Type 0
  Stopped lst (finished p) = (p < lst) × (hit p ≡ true)
  Stopped lst _ = ⊥

  -- Some call has returned with the element.
  abbrev pub HasHit : Call → Type 0
  HasHit (scan fst lst v) = Stopped lst v
  HasHit (cut md own other) = HasHit own ⊎ HasHit other

  Looped-done :
      (a fst lst : ℕ) (v : Status) (d e : Bool)
      → (d ≡ true → e ≡ true)
      → Looped d a fst lst v
      → Looped e a fst lst v
  Looped-done a fst lst testing d e h x = x
  Looped-done a fst lst comparing d e h x = x
  Looped-done a fst lst storing d e h x = x
  Looped-done a fst lst (finished p) d e h (inl x) = inl x
  Looped-done a fst lst (finished p) d e h (inr (q, inl x)) = inr (q, inl (h x))
  Looped-done a fst lst (finished p) d e h (inr (q, inr x)) = inr (q, inr x)

  Ok-done : (c : Call) (a b : ℕ) (d e : Bool) → (d ≡ true → e ≡ true) → Ok d a b c → Ok e a b c
  Ok-done (scan fst lst v) a b d e h (p, x) = (p, Looped-done a fst lst v d e h x)
  Ok-done (cut md own other) a b d e h (l, u, x, y) =
      (l, u, Ok-done own a md d e h x, Ok-done other md b d e h y)

  -- What a step keeps, and who raises the flag.
  abbrev pub Kept : Bool → ℕ → ℕ → Call → Call × Bool → Type 0
  Kept d a b c (t, e) =
      Ok e a b t
      × (d ≡ true → e ≡ true)
      × ((e ≡ true → d ≡ true) ⊎ HasHit t)
      × (HasHit c → HasHit t)

  Clear-suc : (a b : ℕ) → Clear a b → hit b ≡ false → Clear a (b + 1)
  Clear-suc a b c h p l u = elim (Bool-cases (ltb p b)) [
    | inl below ↦ c p l (ground arith)
    | inr at ↦ let same : p ≡ b = ground arith in rw same h
  ]

  advance-Kept :
      (v : Status) (fst lst a b : ℕ) (d : Bool)
      → Ok d a b (scan fst lst v)
      → Kept d a b (scan fst lst v) (advance hit fst lst v d)
  unfolding advance
  advance-Kept testing fst lst a b d (p, (l, u, c)) = elim (Bool-cases (fst == lst)) [
    | inl over ↦
        let same : fst ≡ lst = ground arith in
        rw (over, advance)
          ((p, inr (refl, inr (rw (← same) c))), (λ h. h), inl (λ h. h), (λ h. absurd h))
    | inr more ↦ elim (Bool-cases d) [
      | inl up ↦
          rw (more, up, advance)
            ((p, inr (refl, inl refl)), (λ h. h), inl (λ h. h), (λ h. absurd h))
      | inr down ↦
          rw (more, down, advance)
            ((p, (l, ground arith, c)), (λ h. h), inl (λ h. h), (λ h. absurd h))
    ]
  ]
  advance-Kept comparing fst lst a b d (p, (l, u, c)) = elim (Bool-cases (hit fst)) [
    | inl found ↦ rw (found, advance) ((p, (l, u, found)), (λ h. h), inl (λ h. h), (λ h. absurd h))
    | inr other ↦
        rw (other, advance)
          (
            (p, (omega arith, omega arith, Clear-suc a fst c other)),
            (λ h. h),
            inl (λ h. h),
            (λ h. absurd h),
          )
  ]
  advance-Kept storing fst lst a b d (p, (l, u, c)) =
      ((p, inl (l, u, c)), (λ h. refl), inr (u, c), (λ h. absurd h))
  advance-Kept (finished q) fst lst a b d ok = (ok, (λ h. h), inl (λ h. h), (λ h. h))

  pub step-Kept :
      (c : Call) (way : List Bool) (a b : ℕ) (d : Bool)
      → Ok d a b c
      → Kept d a b c (step hit way c d)
  unfolding step
  step-Kept (scan fst lst v) way a b d ok = advance-Kept v fst lst a b d ok
  step-Kept (cut md own other) [] a b d ok = (ok, (λ h. h), inl (λ h. h), (λ h. h))
  step-Kept (cut md own other) (true ∷ way) a b d (l, u, x, y) =
      let (ok, up, raised, kept) = step-Kept own way a md d x in
      (
        (l, u, ok, Ok-done other md b d _ up y),
        up,
        elim raised [ inl old ↦ inl old | inr new ↦ inr (inl new) ],
        (λ h. elim h [ inl m ↦ inl (kept m) | inr m ↦ inr m ]),
      )
  step-Kept (cut md own other) (false ∷ way) a b d (l, u, x, y) =
      let (ok, up, raised, kept) = step-Kept other way md b d y in
      (
        (l, u, Ok-done own a md d _ up x, ok),
        up,
        elim raised [ inl old ↦ inl old | inr new ↦ inr (inr new) ],
        (λ h. elim h [ inl m ↦ inl m | inr m ↦ inr (kept m) ]),
      )

  pub run-Ok :
      (schedule : List (List Bool)) (c : Call) (a b : ℕ) (d : Bool)
      → Ok d a b c
      → (d ≡ true → HasHit c)
      → let (t, e) = run hit schedule c d in Ok e a b t × (e ≡ true → HasHit t)
  unfolding run
  run-Ok [] c a b d ok h = (ok, h)
  run-Ok (way ∷ schedule) c a b d ok h =
      let (next, up, raised, kept) = step-Kept c way a b d ok in
      run-Ok schedule (step hit way c d).0 a b (step hit way c d).1 next
        (λ e. elim raised [ inl old ↦ kept (h (old e)) | inr new ↦ new ])
