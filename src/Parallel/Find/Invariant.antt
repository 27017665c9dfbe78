-- ===== src/Parallel/Find/Invariant.antt =====
-- parallel_find_accu_async_for_each.cpp, `parallel_find`: what holds after every step.
use my_cpp_code.Common.{
  ℕ, ◌≤◌, ◌<◌, ◌≡◌, ◌≢◌, ◌⊎◌, inl, inr, ap, sym, ◌∙◌, Bool, true, false, List, Option, none, some,
  ◌==◌, ==_iff, Bool-cases,
}
use my_cpp_code.Parallel.{Range}
use my_cpp_code.Parallel.Find.{
  Status, testing, comparing, storing, finished, Thread, Search, set_thread, range_at,
}

module _ (hit : ℕ → Bool) where
  abbrev pub Clear : ℕ → ℕ → Type 0
  Clear a b = (p : ℕ) → a ≤ p → p < b → hit p ≡ false

  abbrev pub Scanned : Option ℕ → Thread → Status → Type 0
  Scanned result t testing = (t.st ≤ t.en) × Clear t.from t.st
  Scanned result t comparing = (t.st < t.en) × Clear t.from t.st
  Scanned result t storing = result ≢ none
  Scanned result t finished = (result ≢ none) ⊎ Clear t.from t.en

  -- A position with the element, in some thread's range.
  abbrev pub Right : List Range → ℕ → Type 0
  Right rs p = (hit p ≡ true) × ((i : ℕ) × (p < (range_at rs i).1))

  pub record Inv (rs : List Range) (s : Search) : Type 0 where
    pub edges :
        (i : ℕ) → ((s.thread i).from ≡ (range_at rs i).0) × ((s.thread i).en ≡ (range_at rs i).1)
    pub own : (i : ℕ) → Scanned s.result (s.thread i) (s.thread i).status
    pub right : (p : ℕ) → s.result ≡ some p → Right rs p
    pub flagged : s.done ≡ true → s.result ≢ none
    pub pending : s.result ≢ none → (s.done ≡ true) ⊎ ((j : ℕ) × ((s.thread j).status ≡ storing))

  -- A property of every thread, when one thread changes.
  pub each_set :
      (P : ℕ → Thread → Type 0) (i : ℕ) (t : Thread) (thread : ℕ → Thread)
      → P i t
      → ((j : ℕ) → P j (thread j))
      → (j : ℕ) → P j (set_thread i t thread j)
  each_set P i t thread new old j = elim (Bool-cases (j == i)) [
    | inl same ↦ rw (same, (==_iff j i).0 same) new
    | inr other ↦ rw other (old j)
  ]

  pub Scanned-later :
      (a b : Option ℕ) (t : Thread) (v : Status)
      → (a ≢ none → b ≢ none)
      → Scanned a t v
      → Scanned b t v
  Scanned-later a b t testing h x = x
  Scanned-later a b t comparing h x = x
  Scanned-later a b t storing h x = h x
  Scanned-later a b t finished h (inl x) = inl (h x)
  Scanned-later a b t finished h (inr x) = inr x

  -- A thread that is not about to store makes a step that leaves the others' promise.
  still_pending :
      (i : ℕ) (t : Thread) (s : Search)
      → (s.thread i).status ≢ storing
      → (s.done ≡ true) ⊎ ((j : ℕ) × ((s.thread j).status ≡ storing))
      → (s.done ≡ true) ⊎ ((j : ℕ) × ((set_thread i t s.thread j).status ≡ storing))
  still_pending i t s ne (inl d) = inl d
  still_pending i t s ne (inr (j, e)) = inr (
    j,
    elim (Bool-cases (j == i)) [
      | inl same ↦ absurd (ne (ap (λ k. (s.thread k).status) (sym ((==_iff j i).0 same)) ∙ e))
      | inr other ↦ rw other e
    ],
  )

  -- A step of a thread that changes neither the promise nor the flag.
  pub local_step :
      (rs : List Range) (i : ℕ) (t : Thread) (s : Search)
      → (s.thread i).status ≢ storing
      → (t.from ≡ (s.thread i).from) × (t.en ≡ (s.thread i).en)
      → Scanned s.result t t.status
      → Inv rs s
      → Inv rs (record s { thread = set_thread i t s.thread })
  local_step rs i t s ne (ef, ee) new v = record {
    edges =
        each_set (λ j u. (u.from ≡ (range_at rs j).0) × (u.en ≡ (range_at rs j).1)) i t s.thread
          (ef ∙ (v.edges i).0, ee ∙ (v.edges i).1) v.edges;
    own = each_set (λ j u. Scanned s.result u u.status) i t s.thread new v.own;
    right = v.right;
    flagged = v.flagged;
    pending = λ h. still_pending i t s ne (v.pending h);
  }
