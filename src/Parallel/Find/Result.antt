-- ===== src/Parallel/Find/Result.antt =====
-- parallel_find_accu_async_for_each.cpp, `parallel_find`: what is returned, under every schedule.
use my_cpp_code.Common.{
  ℕ, zero, suc, ◌+◌, ◌-◌, ◌*◌, ◌^◌, ◌≤◌, ◌<◌, ◌≡◌, ◌≢◌, ◌⊎◌, inl, inr, refl, ap, sym, ◌∙◌, arith,
  Bool, true, false, ◌||◌, List, [], ◌∷◌, Option, none, some, ltb, ltb→lt, ◌==◌, ==_iff, ==_refl,
  if◌then◌else◌, Bool-cases, Option-cases,
}
use my_cpp_code.Parallel.{Range, num_threads, ranges}
use my_cpp_code.Parallel.Ranges.{Cover, ranges-Cover}
use my_cpp_code.Parallel.Find.{
  Status, testing, comparing, storing, finished, Thread, Search, advance, run, range_at,
  start_search, returned, parallel_find,
}
use my_cpp_code.Parallel.Find.Invariant.{Scanned, Inv}
use my_cpp_code.Parallel.Find.Moves.{advance-Inv, run-Inv, range_at-Cover, start_search-Inv}
use mathlib.Core.Path.{subst}

-- How often a thread is scheduled.
abbrev pub turns : ℕ → List ℕ → ℕ
turns i [] = 0
turns i (j ∷ schedule) = (if i == j then 1 else 0) + turns i schedule

-- A bound on the steps that are left to a thread.
abbrev left_in : Thread → Status → ℕ
left_in t testing = 2 * (t.en - t.st) + 1
left_in t comparing = 2 * (t.en - t.st)
left_in t storing = 1
left_in t finished = 0

abbrev steps_left : Thread → ℕ
steps_left t = left_in t t.status

module _ (hit : ℕ → Bool) where
  advance_other :
      (i : ℕ) (s : Search) (v : Status) (j : ℕ)
      → (j == i) ≡ false
      → (advance hit i v s).thread j ≡ s.thread j
  unfolding advance
  advance_other i s testing j e = ground arith
  advance_other i s comparing j e = ground arith
  advance_other i s storing j e = ground arith
  advance_other i s finished j e = refl

  advance_self :
      (i : ℕ) (s : Search) (v : Status)
      → (s.thread i).status ≡ v
      → Scanned hit s.result (s.thread i) v
      → steps_left ((advance hit i v s).thread i) ≤ left_in (s.thread i) v - 1
  unfolding advance
  advance_self i s testing e h = elim (Bool-cases ((s.thread i).st == (s.thread i).en || s.done)) [
    | inl out ↦ rw (out, advance, ==_refl i) (omega arith)
    | inr on ↦ rw (on, advance, ==_refl i) (omega arith)
  ]
  advance_self i s comparing e h = elim (Bool-cases (hit (s.thread i).st)) [
    | inl found ↦ elim (Option-cases s.result) [
      | inl unset ↦ rw (found, unset, advance, ==_refl i) (omega (arith, h.0))
      | inr (p, set) ↦ rw (found, set, advance, ==_refl i) (omega (arith, h.0))
    ]
    | inr other ↦ rw (other, advance, ==_refl i) (omega (arith, h.0))
  ]
  advance_self i s storing e h = rw (==_refl i) (omega arith)
  advance_self i s finished e h = rw e (omega arith)

  steps_left-run :
      (rs : List Range) (i : ℕ) (schedule : List ℕ) (s : Search)
      → Inv hit rs s
      → steps_left ((run hit schedule s).thread i) ≤ steps_left (s.thread i) - turns i schedule
  unfolding run
  steps_left-run rs i [] s v = omega arith
  steps_left-run rs i (j ∷ schedule) s v =
      let now = (s.thread j).status in
      let s' = advance hit j now s in
      let rest = steps_left-run rs i schedule s' (advance-Inv hit rs j s v) in
      elim (Bool-cases (i == j)) [
        | inl same ↦
            let e = (==_iff i j).0 same in
            let one = advance_self j s now refl (v.own j) in
            rw same (
              omega (
                arith,
                rest,
                one,
                ap (λ k. steps_left (s'.thread k)) e,
                ap (λ k. steps_left (s.thread k)) e,
              ))
        | inr other ↦
            let one = ap steps_left (advance_other j s now i other) in
            rw other (omega (arith, rest, one))
      ]

  finished_of_none :
      (result : Option ℕ) (t : Thread) (v : Status)
      → Scanned hit result t v
      → left_in t v ≤ 0
      → v ≡ finished
  finished_of_none result t testing h none_left = absurd (omega arith)
  finished_of_none result t comparing h none_left = absurd (omega (arith, h.0))
  finished_of_none result t storing h none_left = absurd (omega arith)
  finished_of_none result t finished h none_left = refl

  start_steps :
      (hardware size i : ℕ)
      → 0 < size
      → size < 2 ^ 63
      → steps_left ((start_search hardware size).thread i)
        ≤ (if ltb i (num_threads hardware size) then 2 * size + 1 else 0)
  unfolding start_search
  start_steps hardware size i pos small =
      let c =
        range_at-Cover hit 0 (ranges hardware size) size i (ranges-Cover hardware size pos small) in
      elim (Bool-cases (ltb i (num_threads hardware size))) [
        | inl started ↦ rw started (omega (arith, c.1))
        | inr idle ↦ rw idle (omega arith)
      ]

  -- Every position is in a thread's range.
  owner :
      (st : ℕ) (rs : List Range) (lst p : ℕ)
      → Cover st rs lst
      → st ≤ p
      → p < lst
      → (i : ℕ) × ((range_at rs i).0 ≤ p) × (p < (range_at rs i).1)
  owner st [] lst p c lo hi = absurd (omega (arith, c))
  owner st ((a, b) ∷ rs) lst p (e, le, c) lo hi = elim (Bool-cases (ltb p b)) [
    | inl here ↦ (0, omega (arith, e), ltb→lt p b here)
    | inr later ↦
        let (i, above, below) = owner b rs lst p c (ground arith) hi in (suc i, above, below)
  ]

  -- What `parallel_find` promises.
  abbrev pub Found : ℕ → ℕ → Type 0
  Found size r = ((r < size) × (hit r ≡ true)) ⊎ ((r ≡ size) × ((p : ℕ) → p < size → hit p ≡ false))

  result_of_Inv :
      (hardware size : ℕ) (s : Search)
      → 0 < size
      → size < 2 ^ 63
      → Inv hit (ranges hardware size) s
      → ((i : ℕ) → (s.thread i).status ≡ finished)
      → (r : ℕ) × (returned size s ≡ some r) × Found size r
  unfolding returned
  result_of_Inv hardware size s pos small v over =
      let c = ranges-Cover hardware size pos small in
      elim (Option-cases s.result) [
        | inl unset ↦ elim (Bool-cases s.done) [
          | inl up ↦ absurd (v.flagged up unset)
          | inr down ↦
              rw down
                (size, refl, inr (refl, λ p h. missed p (owner 0 _ size p c (omega arith) h) unset))
        ]
        | inr (p, set) ↦
            let (found, (i, below)) = v.right p set in
            let (_, inside) = range_at-Cover hit 0 (ranges hardware size) size i c in
            rw (flag (λ e. cc), set) (p, refl, inl (omega (arith, below, inside), found))
      ]
    where
      flag : s.result ≢ none → s.done ≡ true
      flag set = elim (v.pending set) [
        | inl up ↦ up
        | inr (j, e) ↦ absurd (clash (sym (over j) ∙ e))
      ]
        where
          clash : finished ≢ storing
          clash f = cc

      missed :
          (p : ℕ)
          → ((i : ℕ) × ((range_at (ranges hardware size) i).0 ≤ p)
              × (p < (range_at (ranges hardware size) i).1))
          → s.result ≡ none
          → hit p ≡ false
      missed p (i, lo, hi) unset =
          let own = subst (Scanned hit s.result (s.thread i)) (over i) (v.own i) in
          elim own [
            | inl set ↦ absurd (set unset)
            | inr clear ↦
                clear p (omega (arith, lo, (v.edges i).0)) (omega (arith, hi, (v.edges i).1))
          ]

  searched :
      (hardware size : ℕ) (schedule : List ℕ)
      → 0 < size
      → size < 2 ^ 63
      → ((i : ℕ) → i < num_threads hardware size → 2 * size < turns i schedule)
      → (r : ℕ) × (returned size (run hit schedule (start_search hardware size)) ≡ some r)
        × Found size r
  searched hardware size schedule pos small fair =
      let s = start_search hardware size in
      let rs = ranges hardware size in
      let first = start_search-Inv hit hardware size pos small in
      let v = run-Inv hit rs schedule s first in
      let t = (run hit schedule s).thread in
      let spent : (i : ℕ) → steps_left (t i) ≤ 0 = λ i.
        let bound = start_steps hardware size i pos small in
        let left = steps_left-run rs i schedule s first in
        elim (Bool-cases (ltb i (num_threads hardware size))) [
          | inl started ↦ omega (
            arith,
            left,
            rw started at bound,
            fair i (ltb→lt i (num_threads hardware size) started),
          )
          | inr idle ↦ omega (arith, left, rw idle at bound)
        ] in
      result_of_Inv hardware size (run hit schedule s) pos small v
        (λ i. finished_of_none (run hit schedule s).result (t i) (t i).status (v.own i) (spent i))

  -- `parallel_find` on fewer than 2 ^ 63 elements, after every schedule in which each thread has
  -- enough turns, more than two for each element of the container, returns a position of the
  -- value, and the end only when no position has it.
  pub parallel_find-Found :
      (hardware size : ℕ) (schedule : List ℕ)
      → size < 2 ^ 63
      → ((i : ℕ) → i < num_threads hardware size → 2 * size < turns i schedule)
      → (r : ℕ) × (parallel_find hit hardware size schedule ≡ some r) × Found size r
  unfolding parallel_find
  parallel_find-Found hardware zero schedule small fair =
      (0, refl, inr (refl, λ p h. absurd (omega arith)))
  parallel_find-Found hardware (suc before) schedule small fair =
      let nonempty : (suc before == 0) ≡ false = ground arith in
      rw (nonempty, parallel_find)
        (searched hardware (suc before) schedule (omega arith) small fair)
