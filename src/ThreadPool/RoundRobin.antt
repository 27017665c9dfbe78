-- ===== src/ThreadPool/RoundRobin.antt =====
-- event_loop_threadpool.cpp, `getNextLoop`: the loops take turns.
use native.Mathlib.Nat.{mod-add-mod, mod-eq_of_lt, mod-lt, mod_self}
use native.Mathlib.Decide.{dec_lt}
use my_cpp_code.Common.{
  ℕ, zero, suc, ◌+◌, ◌%◌, ◌<◌, ◌≡◌, refl, sym, ap, ◌∙◌, arith, true, List, [], ◌∷◌, ◌++◌, Option,
  none, some, length, get_elem?, ◌⊎◌, inl, inr, append_assoc, append-nil, ◌↔◌, Option-cases,
  get_elem?-lt,
}
use my_cpp_code.ThreadPool.{
  ThreadPool, new_pool, set_thread_num, start_loops, start, advance, deal, get_next_loop,
}

advance-mod : (next n : ℕ) → next < n → advance next n ≡ (next + 1) % n
unfolding advance
advance-mod next n h = elim (dec_lt (next + 1) n) [
  | yes p ↦ ground (arith, mod-eq_of_lt {n = next + 1} {m = n} p)
  | no p ↦ let e : next + 1 ≡ n = omega arith in ground (arith, mod_self n, ap (λ k. k % n) e)
]

module _ {A : Type 0} where
  -- The next index is that of a loop, if there are loops.
  abbrev pub IsValid : ThreadPool A → Type 0
  IsValid p = (p.loops ≡ []) ⊎ (p.next < length p.loops)

  -- The loops of the threads `from`, `from + 1`, ….
  abbrev pub loops_from : (ℕ → A) → ℕ → ℕ → List A
  loops_from start_loop from zero = []
  loops_from start_loop from (suc n) = start_loop from ∷ loops_from start_loop (from + 1) n

  start_loops-append :
      (start_loop : ℕ → A) (n from : ℕ) (loops : List A)
      → start_loops start_loop n from loops ≡ loops ++ loops_from start_loop from n
  unfolding start_loops
  start_loops-append f zero from loops = sym (append-nil loops)
  start_loops-append f (suc n) from loops =
      start_loops-append f n (from + 1) (loops ++ (f from ∷ []))
      ∙ append_assoc loops (f from ∷ []) (loops_from f (from + 1) n)

  -- A fresh pool holds the loops of its threads in order once it is started, and is valid; the
  -- callback runs on the base loop exactly when there are no threads.
  pub start-new_pool :
      (start_loop : ℕ → A) (base : A) (n : ℕ)
      → let (p, called) = start start_loop true (set_thread_num (new_pool base) n) in
        (p.loops ≡ loops_from start_loop 0 n) × IsValid p × ((called ≡ true) ↔ (n ≡ 0))
  unfolding start set_thread_num new_pool
  start-new_pool f base zero = (start_loops-append f 0 0 [], inl refl, ground arith)
  start-new_pool f base (suc n) =
      let e = start_loops-append f (suc n) 0 [] in
      (e, inr (omega (arith, ap length e)), ground arith)

  abbrev pub continue :
      (ThreadPool A → List (Option A)) → Option (A × ThreadPool A) → List (Option A)
  continue rest none = none ∷ []
  continue rest (some (loop, p)) = some loop ∷ rest p

  -- The loops as they are dealt out over a number of calls.
  abbrev pub deals : ℕ → ThreadPool A → List (Option A)
  deals zero p = []
  deals (suc n) p = continue (deals n) (get_next_loop p)

  -- One call of a pool with loops: the loop at the next index, which moves on by one, round the end.
  pub get_next_loop-mod :
      (p : ThreadPool A)
      → p.next < length p.loops
      → (loop : A) × (get_elem? p.loops p.next ≡ some loop)
        × (get_next_loop p ≡ some (loop, record p { next = (p.next + 1) % length p.loops }))
  unfolding get_next_loop deal
  get_next_loop-mod p h = elim (Option-cases (get_elem? p.loops p.next)) [
    | inl e ↦ absurd (get_elem?-lt p.loops p.next h e)
    | inr (loop, e) ↦ (loop, e, ground (arith, advance-mod p.next (length p.loops) h))
  ]

  get_next_loop-IsValid :
      (p p' : ThreadPool A) (loop : A) → IsValid p → get_next_loop p ≡ some (loop, p') → IsValid p'
  unfolding get_next_loop deal advance
  get_next_loop-IsValid p p' loop v e = ground arith

  -- A valid pool always has a loop to deal out, and stays valid.
  pub get_next_loop_total :
      (p : ThreadPool A)
      → IsValid p
      → (loop : A) × (p' : ThreadPool A) × (get_next_loop p ≡ some (loop, p')) × IsValid p'
  get_next_loop_total p (inl e) = (p.base_loop, p, unfold get_next_loop in ground arith, inl e)
  get_next_loop_total p (inr h) =
      let (loop, at, t) = get_next_loop-mod p h in
      (loop, _, t, get_next_loop-IsValid p _ loop (inr h) t)

  deals_step :
      (n k : ℕ) (p : ThreadPool A) {p' : ThreadPool A} {loop : A}
      → get_next_loop p ≡ some (loop, p')
      → get_elem? (deals (suc n) p) k ≡ get_elem? (some loop ∷ deals n p') k
  deals_step n k p t = ap (λ (o : Option (A × ThreadPool A)). get_elem? (continue (deals n) o) k) t

  -- A pool whose next index is one of its loops deals them out in turn: over any number of
  -- calls, call number `k` is given the loop at index `next + k` modulo the number of loops.
  pub get_elem?-deals :
      (n k : ℕ) (p : ThreadPool A)
      → p.next < length p.loops
      → k < n
      → get_elem? (deals n p) k ≡ some (get_elem? p.loops ((p.next + k) % length p.loops))
  get_elem?-deals zero k p h f = absurd (omega arith)
  get_elem?-deals (suc n) zero p h f =
      let (loop, e, t) = get_next_loop-mod p h in
      deals_step n zero p t
      ∙ ap some (
          sym e
          ∙ ap (get_elem? p.loops)
              (sym (mod-eq_of_lt h) ∙ ap (λ k. k % length p.loops) (omega arith)))
  get_elem?-deals (suc n) (suc k) p h f =
      let (loop, e, t) = get_next_loop-mod p h in
      deals_step n (suc k) p t
      ∙ get_elem?-deals n k (record p { next = (p.next + 1) % length p.loops })
          (mod-lt (p.next + 1) (omega arith)) (omega arith)
      ∙ ap (λ i. some (get_elem? p.loops i))
          (mod-add-mod (p.next + 1) (length p.loops) k ∙ ap (λ i. i % length p.loops) (omega arith))
