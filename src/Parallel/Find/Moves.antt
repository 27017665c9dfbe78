-- ===== src/Parallel/Find/Moves.antt =====
-- parallel_find_accu_async_for_each.cpp, `parallel_find`: every step keeps the invariant.
use my_cpp_code.Common.{
  ℕ, zero, suc, ◌+◌, ◌^◌, ◌≤◌, ◌<◌, ◌≡◌, ◌≢◌, ◌⊎◌, inl, inr, refl, ap, sym, ◌∙◌, arith, Bool, true,
  false, ◌||◌, List, [], ◌∷◌, none, some, ltb, ◌==◌, ==_iff, ==_refl, Bool-cases, Option-cases,
  length,
}
use mathlib.Core.Option.{some-injective}
use mathlib.Core.Path.{subst}
use my_cpp_code.Parallel.{Range, num_threads, ranges}
use my_cpp_code.Parallel.Ranges.{Cover, Cover-le, length-ranges, ranges-Cover}
use my_cpp_code.Parallel.Find.{
  Status, testing, comparing, storing, finished, Thread, Search, set_thread, with_status, advance,
  run, range_at, start_search,
}
use my_cpp_code.Parallel.Find.Invariant.{
  Clear, Scanned, Right, Inv, each_set, Scanned-later, local_step,
}

module _ (hit : ℕ → Bool) where
  testing-Inv :
      (rs : List Range) (i : ℕ) (s : Search)
      → (s.thread i).status ≡ testing
      → Scanned hit s.result (s.thread i) testing
      → Inv hit rs s
      → Inv hit rs (advance hit i testing s)
  unfolding advance
  testing-Inv rs i s e (le, clear) v =
      let t = s.thread i in
      let ne : t.status ≢ storing = λ f. not_storing (sym e ∙ f) in
      elim (Bool-cases (t.st == t.en || s.done)) [
        | inl out ↦
            rw (out, advance)
              (local_step hit rs i (with_status finished t) s ne (refl, refl)
                (left_by s.done v.flagged out) v)
        | inr on ↦
            rw (on, advance)
              (local_step hit rs i (with_status comparing t) s ne (refl, refl)
                (ground (arith, le), clear) v)
      ]
    where
      not_storing : testing ≢ storing
      not_storing f = cc

      left_by :
          (d : Bool)
          → (d ≡ true → s.result ≢ none)
          → (((s.thread i).st == (s.thread i).en) || d) ≡ true
          → (s.result ≢ none) ⊎ Clear hit (s.thread i).from (s.thread i).en
      left_by true f out = inl (f refl)
      left_by false f out =
          let same : (s.thread i).st ≡ (s.thread i).en = ground arith in
          inr (λ p lo hi. clear p lo (omega (arith, same)))

  comparing-Inv :
      (rs : List Range) (i : ℕ) (s : Search)
      → (s.thread i).status ≡ comparing
      → Scanned hit s.result (s.thread i) comparing
      → Inv hit rs s
      → Inv hit rs (advance hit i comparing s)
  unfolding advance
  comparing-Inv rs i s e (less, clear) v =
      let t = s.thread i in
      let ne : t.status ≢ storing = λ f. not_storing (sym e ∙ f) in
      elim (Bool-cases (hit t.st)) [
        | inl found ↦ elim (Option-cases s.result) [
          | inl unset ↦ rw (found, unset, advance) (first found unset)
          | inr (p, set) ↦
              rw (found, set, advance)
                (local_step hit rs i (with_status finished t) s ne (refl, refl) (inl (λ f. cc)) v)
        ]
        | inr other ↦
            let moved : Thread = record t { st = t.st + 1; status = testing } in
            rw (other, advance)
              (local_step hit rs i moved s ne (refl, refl) (omega (arith, less), further other) v)
      ]
    where
      not_storing : comparing ≢ storing
      not_storing f = cc

      further : hit (s.thread i).st ≡ false → Clear hit (s.thread i).from ((s.thread i).st + 1)
      further other p lo hi = elim (Bool-cases (p == (s.thread i).st)) [
        | inl last ↦ ap hit ((==_iff p (s.thread i).st).0 last) ∙ other
        | inr before ↦ clear p lo (ground arith)
      ]

      first :
          hit (s.thread i).st ≡ true
          → s.result ≡ none
          → Inv hit rs (record s {
            thread = set_thread i (with_status storing (s.thread i)) s.thread;
            result = some (s.thread i).st;
          })
      first found unset =
          let t = s.thread i in
          let r = s.result in
          record {
            edges =
                each_set hit (λ j u. (u.from ≡ (range_at rs j).0) × (u.en ≡ (range_at rs j).1)) i
                  (with_status storing t) s.thread (v.edges i) v.edges;
            own =
                each_set hit (λ j u. Scanned hit (some t.st) u u.status) i (with_status storing t)
                  s.thread (λ h. cc)
                  (λ j.
                    Scanned-later hit r (some t.st) (s.thread j) (s.thread j).status (λ g h. cc)
                      (v.own j));
            right = λ p h.
                subst (Right hit rs) (some-injective t.st p h)
                  (found, (i, omega (arith, less, (v.edges i).1)));
            flagged = λ h k. cc;
            pending = λ h. inr (i, rw (==_refl i) refl);
          }

  storing-Inv :
      (rs : List Range) (i : ℕ) (s : Search)
      → s.result ≢ none
      → Inv hit rs s
      → Inv hit rs (advance hit i storing s)
  unfolding advance
  storing-Inv rs i s set v =
      let t = s.thread i in
      record {
        edges =
            each_set hit (λ j u. (u.from ≡ (range_at rs j).0) × (u.en ≡ (range_at rs j).1)) i
              (with_status finished t) s.thread (v.edges i) v.edges;
        own =
            each_set hit (λ j u. Scanned hit s.result u u.status) i (with_status finished t)
              s.thread (inl set) v.own;
        right = v.right;
        flagged = λ h. set;
        pending = λ h. inl refl;
      }

  pub advance-Inv :
      (rs : List Range) (i : ℕ) (s : Search)
      → Inv hit rs s
      → Inv hit rs (advance hit i (s.thread i).status s)
  advance-Inv rs i s v = at (s.thread i).status refl (v.own i)
    where
      at :
          (now : Status)
          → (s.thread i).status ≡ now
          → Scanned hit s.result (s.thread i) now
          → Inv hit rs (advance hit i now s)
      at testing e own = testing-Inv rs i s e own v
      at comparing e own = comparing-Inv rs i s e own v
      at storing e own = storing-Inv rs i s own v
      at finished e own = unfold advance in v

  pub run-Inv :
      (rs : List Range) (schedule : List ℕ) (s : Search)
      → Inv hit rs s
      → Inv hit rs (run hit schedule s)
  unfolding run
  run-Inv rs [] s v = v
  run-Inv rs (i ∷ schedule) s v =
      run-Inv rs schedule (advance hit i (s.thread i).status s) (advance-Inv rs i s v)

  pub range_at-Cover :
      (st : ℕ) (rs : List Range) (lst : ℕ) (i : ℕ)
      → Cover st rs lst
      → ((range_at rs i).0 ≤ (range_at rs i).1) × ((range_at rs i).1 ≤ lst)
  range_at-Cover st [] lst i c = (omega arith, omega arith)
  range_at-Cover st ((a, b) ∷ rs) lst zero (e, le, c) = (omega (arith, e, le), Cover-le b rs lst c)
  range_at-Cover st ((a, b) ∷ rs) lst (suc i) (e, le, c) = range_at-Cover b rs lst i c

  range_at_past : (rs : List Range) (i : ℕ) → length rs ≤ i → range_at rs i ≡ (0, 0)
  range_at_past [] i h = refl
  range_at_past (r ∷ rs) zero h = absurd (omega arith)
  range_at_past (r ∷ rs) (suc i) h = range_at_past rs i (omega arith)

  pub start_search-Inv :
      (hardware size : ℕ)
      → 0 < size
      → size < 2 ^ 63
      → Inv hit (ranges hardware size) (start_search hardware size)
  unfolding start_search
  start_search-Inv hardware size pos small = record {
    edges = λ i. (refl, refl);
    own = start_own;
    right = λ p h. cc;
    flagged = λ h. cc;
    pending = λ h. absurd (h refl);
  }
    where
      start_own :
          (i : ℕ)
          → Scanned hit none
              ((start_search hardware size).thread i)
              ((start_search hardware size).thread i).status
      start_own i =
          let rs = ranges hardware size in
          let c = range_at-Cover 0 rs size i (ranges-Cover hardware size pos small) in
          elim (Bool-cases (ltb i (num_threads hardware size))) [
            | inl started ↦ rw started (c.0, λ p lo hi. absurd (omega (arith, lo, hi)))
            | inr idle ↦
                let e =
                  range_at_past rs i (ground (arith, length-ranges hardware size pos small)) in
                rw (idle, e) (inr (λ p lo hi. absurd (omega (arith, hi))))
          ]
