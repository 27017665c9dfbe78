-- ===== src/Parallel/FindAsync/Result.antt =====
-- parallel_find_accu_async_for_each.cpp, `parallel_find_async`: what the calls return.
use my_cpp_code.Common.{
  ℕ, zero, suc, ◌+◌, ◌-◌, ◌*◌, ◌/◌, ◌≤◌, ◌<◌, ◌≡◌, ◌≢◌, ◌⊎◌, inl, inr, refl, sym, ◌∙◌, arith, Bool,
  true, false, ◌||◌, List, [], ◌∷◌, some, ltb, ◌==◌, if◌then◌else◌, length, Bool-cases,
  Option-cases,
}
use my_cpp_code.Parallel.Find.Result.{Found}
use my_cpp_code.Parallel.FindAsync.{
  Status, testing, comparing, storing, finished, Call, scan, cut, calls, advance, step, run, answer,
  parallel_find_async,
}
use my_cpp_code.Parallel.FindAsync.Invariant.{Clear, Looped, Ok, HasHit, step-Kept, run-Ok}
use mathlib.Core.Option.{bind}

-- The rest of the ways that lead into one half.
unfoldable pub into : Bool → List (List Bool) → List (List Bool)
into half [] = []
into half ([] ∷ schedule) = into half schedule
into half ((true ∷ way) ∷ schedule) = if half then way ∷ into half schedule else into half schedule
into half ((false ∷ way) ∷ schedule) = if half then into half schedule else way ∷ into half schedule

-- Every loop gets two turns for each element of its range and one more.
abbrev pub Fair : ℕ → ℕ → ℕ → List (List Bool) → Type 0
Fair zero fst lst schedule = Unit
Fair (suc fuel) fst lst schedule =
    let size = lst - fst in
    let md = fst + size / 2 in
    elim (ltb size (2 * 25)) [
      | true ↦ 2 * size + 1 ≤ length schedule
      | false ↦ Fair fuel fst md (into true schedule) × Fair fuel md lst (into false schedule)
    ]

-- The steps that a loop still takes at most.
abbrev steps_left : (fst lst : ℕ) → Status → ℕ
steps_left fst lst testing = 2 * (lst - fst) + 1
steps_left fst lst comparing = 2 * (lst - fst)
steps_left fst lst storing = 1
steps_left fst lst (finished p) = 0

abbrev Enough : Call → List (List Bool) → Type 0
Enough (scan fst lst v) schedule = steps_left fst lst v ≤ length schedule
Enough (cut md own other) schedule =
    Enough own (into true schedule) × Enough other (into false schedule)

module _ (hit : ℕ → Bool) where
  found : (p r : ℕ) → some p ≡ some r → p ≡ r
  found p r e = cc

  -- `res.get()` is asked for exactly where the own half returned `md`.
  answer_cut :
      (md r : ℕ) (own other : Call)
      → answer (cut md own other) ≡ some r
      → ((answer own ≡ some md) × (answer other ≡ some r)) ⊎ ((answer own ≡ some r) × (r ≢ md))
  unfolding answer bind
  answer_cut md r own other e = elim (Option-cases (answer own)) [
    | inl pending ↦ absurd (cc (rw pending at e))
    | inr (p, known) ↦ elim (Bool-cases (p == md)) [
      | inl same ↦ inl (ground arith, ground arith)
      | inr differs ↦ inr (ground arith, λ h. ground arith)
    ]
  ]

  both :
      (a md b r : ℕ) (d : Bool)
      → a ≤ md
      → md ≤ b
      → ((a ≤ md) × (md < md) × (hit md ≡ true)) ⊎ ((md ≡ md) × ((d ≡ true) ⊎ Clear hit a md))
      → ((md ≤ r) × (r < b) × (hit r ≡ true)) ⊎ ((r ≡ b) × ((d ≡ true) ⊎ Clear hit md b))
      → ((a ≤ r) × (r < b) × (hit r ≡ true)) ⊎ ((r ≡ b) × ((d ≡ true) ⊎ Clear hit a b))
  both a md b r d l u (inl (x, low, h)) k = absurd (omega arith)
  both a md b r d l u (inr (e, h)) (inl (x, up, k)) = inl (omega arith, up, k)
  both a md b r d l u (inr (e, inl h)) (inr (f, k)) = inr (f, inl h)
  both a md b r d l u (inr (e, inr h)) (inr (f, inl k)) = inr (f, inl k)
  both a md b r d l u (inr (e, inr h)) (inr (f, inr k)) = inr (
    f,
    inr (λ p low up. elim (Bool-cases (ltb p md)) [
      | inl left ↦ h p low (ground arith)
      | inr right ↦ k p (ground arith) up
    ]),
  )

  -- What a call returns is right if it found it, or if nothing was found in its range; where another
  -- call has raised the flag it may only say that it found nothing.
  answer-Ok :
      (c : Call) (a b r : ℕ) (d : Bool)
      → Ok hit d a b c
      → answer c ≡ some r
      → ((a ≤ r) × (r < b) × (hit r ≡ true)) ⊎ ((r ≡ b) × ((d ≡ true) ⊎ Clear hit a b))
  unfolding answer
  answer-Ok (scan fst lst (finished p)) a b r d (q, inl (l, u, h)) e =
      let same = found p r e in inl (rw (← same) l, rw (← same, ← q) u, rw (← same) h)
  answer-Ok (scan fst lst (finished p)) a b r d (q, inr (s, x)) e =
      inr (sym (found p r e) ∙ s ∙ q, rw (← q) x)
  answer-Ok (scan fst lst testing) a b r d ok e = cc
  answer-Ok (scan fst lst comparing) a b r d ok e = cc
  answer-Ok (scan fst lst storing) a b r d ok e = cc
  answer-Ok (cut md own other) a b r d (l, u, x, y) e = elim (answer_cut md r own other e) [
    | inl (missed, get) ↦
        both a md b r d l u (answer-Ok own a md md d x missed) (answer-Ok other md b r d y get)
    | inr (own_answer, differs) ↦ elim (answer-Ok own a md r d x own_answer) [
      | inl (al, au, h) ↦ inl (al, omega arith, h)
      | inr (same, x) ↦ absurd (differs same)
    ]
  ]

  answer-HasHit :
      (c : Call) (a b r : ℕ) (d : Bool)
      → Ok hit d a b c
      → HasHit hit c
      → answer c ≡ some r
      → (r < b) × (hit r ≡ true)
  unfolding answer
  answer-HasHit (scan fst lst (finished p)) a b r d (q, ok) h e =
      let same = found p r e in (rw (← same, ← q) h.0, rw (← same) h.1)
  answer-HasHit (scan fst lst testing) a b r d ok h e = elim h [ ]
  answer-HasHit (scan fst lst comparing) a b r d ok h e = elim h [ ]
  answer-HasHit (scan fst lst storing) a b r d ok h e = elim h [ ]
  answer-HasHit (cut md own other) a b r d (l, u, x, y) h e = elim (answer_cut md r own other e) [
    | inl (missed, get) ↦ elim h [
      | inl m ↦ let (low, hits) = answer-HasHit own a md md d x m missed in absurd (omega arith)
      | inr m ↦ answer-HasHit other md b r d y m get
    ]
    | inr (own_answer, differs) ↦ elim (answer-Ok own a md r d x own_answer) [
      | inl (al, au, hits) ↦ (omega arith, hits)
      | inr (same, x) ↦ absurd (differs same)
    ]
  ]

  advance-Enough :
      (v : Status) (fst lst a : ℕ) (d : Bool) (schedule : List (List Bool))
      → Looped hit d a fst lst v
      → steps_left fst lst v ≤ suc (length schedule)
      → Enough (advance hit fst lst v d).0 schedule
  unfolding advance
  advance-Enough testing fst lst a d schedule (l, u, c) h = elim (Bool-cases (fst == lst || d)) [
    | inl over ↦ rw (over, advance) (omega arith)
    | inr more ↦ rw (more, advance) (omega arith)
  ]
  advance-Enough comparing fst lst a d schedule (l, u, c) h = elim (Bool-cases (hit fst)) [
    | inl found ↦ rw (found, advance) (omega arith)
    | inr other ↦ rw (other, advance) (omega arith)
  ]
  advance-Enough storing fst lst a d schedule ok h = omega arith
  advance-Enough (finished p) fst lst a d schedule ok h = omega arith

  step-Enough :
      (c : Call) (way : List Bool) (a b : ℕ) (d : Bool) (schedule : List (List Bool))
      → Ok hit d a b c
      → Enough c (way ∷ schedule)
      → Enough (step hit way c d).0 schedule
  unfolding step into
  step-Enough (scan fst lst v) way a b d schedule ok h =
      advance-Enough v fst lst a d schedule ok.1 h
  step-Enough (cut md own other) [] a b d schedule ok h = h
  step-Enough (cut md own other) (true ∷ way) a b d schedule (l, u, x, y) h =
      (step-Enough own way a md d (into true schedule) x h.0, h.1)
  step-Enough (cut md own other) (false ∷ way) a b d schedule (l, u, x, y) h =
      (h.0, step-Enough other way md b d (into false schedule) y h.1)

  run-Enough :
      (schedule : List (List Bool)) (c : Call) (a b : ℕ) (d : Bool)
      → Ok hit d a b c
      → Enough c schedule
      → Enough (run hit schedule c d).0 []
  unfolding run
  run-Enough [] c a b d ok h = h
  run-Enough (way ∷ schedule) c a b d ok h =
      run-Enough schedule (step hit way c d).0 a b (step hit way c d).1
        (step-Kept hit c way a b d ok).0 (step-Enough c way a b d schedule ok h)

  answered :
      (c : Call) (a b : ℕ) (d : Bool) → Ok hit d a b c → Enough c [] → (r : ℕ) × (answer c ≡ some r)
  unfolding answer bind into
  answered (scan fst lst testing) a b d ok h = absurd (omega arith)
  answered (scan fst lst comparing) a b d (p, (l, u, k)) h = absurd (omega arith)
  answered (scan fst lst storing) a b d ok h = absurd (omega arith)
  answered (scan fst lst (finished p)) a b d ok h = (p, refl)
  answered (cut md own other) a b d (l, u, x, y) h =
      let (p, known) = answered own a md d x h.0 in
      let (r, got) = answered other md b d y h.1 in ((if p == md then r else p), ground arith)

  calls_cut :
      (fuel fst lst : ℕ) (own other : Call)
      → ltb (lst - fst) 50 ≡ false
      → calls fuel fst (fst + (lst - fst) / 2) ≡ some own
      → calls fuel (fst + (lst - fst) / 2) lst ≡ some other
      → calls (suc fuel) fst lst ≡ some (cut (fst + (lst - fst) / 2) own other)
  unfolding calls bind
  calls_cut fuel fst lst own other long x y = ground arith

  calls-Ok :
      (fuel fst lst : ℕ) (schedule : List (List Bool))
      → fst ≤ lst
      → lst - fst < fuel
      → Fair fuel fst lst schedule
      → (c : Call) × (calls fuel fst lst ≡ some c) × Ok hit false fst lst c × Enough c schedule
  unfolding calls
  calls-Ok zero fst lst schedule l h fair = absurd (omega arith)
  calls-Ok (suc fuel) fst lst schedule l h fair = elim (Bool-cases (ltb (lst - fst) 50)) [
    | inl short ↦ (
      scan fst lst testing,
      rw (short, calls) refl,
      (refl, (omega arith, l, λ p x y. absurd (omega arith))),
      rw (short, Fair) at fair,
    )
    | inr long ↦
        let md = fst + (lst - fst) / 2 in
        let fair' : Fair fuel fst md (into true schedule) × Fair fuel md lst (into false schedule) =
          rw (long, Fair) at fair in
        let (own, x, ok, enough) =
          calls-Ok fuel fst md (into true schedule) (omega arith) (ground arith) fair'.0 in
        let (other, y, ok', enough') =
          calls-Ok fuel md lst (into false schedule) (omega arith) (ground arith) fair'.1 in
        (
          cut md own other,
          calls_cut fuel fst lst own other long x y,
          (omega arith, omega arith, ok, ok'),
          (enough, enough'),
        )
  ]

  returned :
      (size fuel : ℕ) (schedule : List (List Bool)) (c : Call) (r : ℕ)
      → calls fuel 0 size ≡ some c
      → answer (run hit schedule c false).0 ≡ some r
      → parallel_find_async hit fuel size schedule ≡ some r
  unfolding parallel_find_async bind
  returned size fuel schedule c r e h = rw (e, parallel_find_async) h

  -- With fuel beyond the length, after every schedule in which each loop has enough turns, two
  -- for each element of its range and one more, `parallel_find_async` returns a position of the
  -- value, and the end only when no position has it.
  pub parallel_find_async-Found :
      (size fuel : ℕ) (schedule : List (List Bool))
      → size < fuel
      → Fair fuel 0 size schedule
      → (r : ℕ) × (parallel_find_async hit fuel size schedule ≡ some r) × Found hit size r
  unfolding parallel_find_async
  parallel_find_async-Found size fuel schedule h fair =
      let (c, made, ok, enough) = calls-Ok fuel 0 size schedule (omega arith) (omega arith) fair in
      let (end, hits) = run-Ok hit schedule c 0 size false ok (λ e. absurd (cc e)) in
      let left = run-Enough schedule c 0 size false ok enough in
      let (t, flag) = run hit schedule c false in
      let (r, got) = answered t 0 size flag end left in
      (
        r,
        returned size fuel schedule c r made got,
        elim (answer-Ok t 0 size r flag end got) [
          | inl (l, u, k) ↦ inl (u, k)
          | inr (e, inl up) ↦ inl (answer-HasHit t 0 size r flag end (hits up) got)
          | inr (e, inr clear) ↦ inr (e, λ p x. clear p (omega arith) x)
        ],
      )
