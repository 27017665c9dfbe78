-- ===== src/WorkStealing/Turns.antt =====
-- thread_pool.cpp: what one step of a worker does whose task is found or is not.
use my_cpp_code.Common.{
  ℕ, suc, ◌+◌, ◌-◌, ◌%◌, ◌≤◌, ◌<◌, ◌≡◌, refl, sym, ap, ◌∙◌, arith, List, [], ◌∷◌, Option, none,
  some, ltb, ltb→lt, lt→ltb, ◌==◌, ==_iff, ==_refl, Bool-cases, inl, inr, replicate,
}
use native.Mathlib.Nat.{mod-eq_of_lt, add-mod_left}
use my_cpp_code.SafeQueue.Interface.{QueueClass}
use my_cpp_code.WorkStealing.{
  Place, at_pool, at_other, running, Pool, put_at, try_steal, popped_local, popped_pool,
  stolen_from, step, steps, act, run,
}

-- Every queue is tried in some round.
pub round_of : (n i j : ℕ) → i < n → j < n → (round : ℕ) × (round < n) × ((i + round + 1) % n ≡ j)
round_of n i j h k = elim (Bool-cases (ltb i j)) [
  | inl before ↦
      let lt = ltb→lt i j before in
      let same : i + (j - i - 1) + 1 ≡ j = omega arith in
      (j - i - 1, omega arith, rw same (mod-eq_of_lt k))
  | inr after ↦
      let le : j ≤ i = ground arith in
      let same : i + (n + j - i - 1) + 1 ≡ n + j = omega arith in
      (n + j - i - 1, omega arith, rw same (add-mod_left n j ∙ mod-eq_of_lt k))
]

stolen : (x : ℕ) (q : List ℕ) → (y : ℕ) × ((try_steal (x ∷ q)).1 ≡ some y)
unfolding try_steal
stolen x [] = (x, refl)
stolen x (y ∷ q) = stolen y q

some_same : {a b : ℕ} → some b ≡ some a → b ≡ a
some_same e = cc

pub none-some : {a : ℕ} {o : Option ℕ} → o ≡ none → o ≡ some a → ⊥
none-some e f = absurd (cc (sym e ∙ f))

pub try_steal-none : (q : List ℕ) → (try_steal q).1 ≡ none → q ≡ []
try_steal-none [] e = refl
try_steal-none (x ∷ q) e = let (y, some_y) = stolen x q in absurd (none-some e some_y)

module _ (c : QueueClass ℕ) where
  open c use {Queue}

  pub put_at_queue :
      (i j : ℕ) (place : Place) (p : Pool c)
      → ((put_at c i place p).worker j).queue ≡ (p.worker j).queue
  put_at_queue i j place p = elim (Bool-cases (j == i)) [
    | inl same ↦ rw same (ap (λ (k : ℕ). (p.worker k).queue) (sym ((==_iff j i).0 same)))
    | inr other ↦ rw other refl
  ]

  pub put_at_place :
      (i : ℕ) (place : Place) (p : Pool c) → ((put_at c i place p).worker i).place ≡ place
  put_at_place i place p = rw (==_refl i) refl

  solo_step :
      (i : ℕ) (place : Place) (p : Pool c)
      → i < p.size
      → (p.worker i).place ≡ place
      → act c (steps i) p ≡ step c i place p
  unfolding act
  solo_step i place p l e = rw (lt→ltb i p.size l) (ap (λ (x : Place). step c i x p) e)

  -- Worker `i` alone gets to a task within `n` steps.
  abbrev pub Reaches : ℕ → ℕ → Pool c → Type 0
  Reaches i n p =
      (k : ℕ) × (k ≤ n)
      × (task : ℕ) × (((run c (replicate k (steps i)) p).worker i).place ≡ running task)

  pub now :
      (i n : ℕ) (place : Place) (p : Pool c) (task : ℕ)
      → i < p.size
      → (p.worker i).place ≡ place
      → ((step c i place p).worker i).place ≡ running task
      → Reaches i (suc n) p
  unfolding run
  now i n place p task l e h =
      (1, omega arith, task, ap (λ (q : Pool c). (q.worker i).place) (solo_step i place p l e) ∙ h)

  pub later :
      (i n : ℕ) (place : Place) (p : Pool c)
      → i < p.size
      → (p.worker i).place ≡ place
      → Reaches i n (step c i place p)
      → Reaches i (suc n) p
  unfolding run
  later i n place p l e (k, small, task, h) = (
    suc k,
    omega arith,
    task,
    ap (λ (q : Pool c). ((run c (replicate k (steps i)) q).worker i).place)
          (solo_step i place p l e)
        ∙ h,
  )

  pub popped_running :
      (i task : ℕ) (r : List ℕ × Option ℕ) (p : Pool c)
      → r.1 ≡ some task
      → ((popped_local c i r p).worker i).place ≡ running task
  unfolding popped_local
  popped_running i task (left, none) p e = absurd (none-some refl e)
  popped_running i task (left, some t) p e = rw (==_refl i) (ap running (some_same e))

  pub popped_none :
      (i : ℕ) (r : List ℕ × Option ℕ) (p : Pool c)
      → r.1 ≡ none
      → popped_local c i r p ≡ put_at c i at_pool p
  unfolding popped_local
  popped_none i (left, none) p e = refl
  popped_none i (left, some t) p e = absurd (none-some e refl)

  pub taken_running :
      (i task : ℕ) (r : Queue × Option ℕ) (p : Pool c)
      → r.1 ≡ some task
      → ((popped_pool c i r p).worker i).place ≡ running task
  unfolding popped_pool
  taken_running i task (left, none) p e = absurd (none-some refl e)
  taken_running i task (left, some t) p e = rw (==_refl i) (ap running (some_same e))

  pub taken_none :
      (i : ℕ) (r : Queue × Option ℕ) (p : Pool c)
      → r.1 ≡ none
      → popped_pool c i r p ≡ put_at c i (at_other 0) (record p { pool_queue = r.0 })
  unfolding popped_pool
  taken_none i (left, none) p e = refl
  taken_none i (left, some t) p e = absurd (none-some e refl)

  pub stolen_running :
      (i round idx task : ℕ) (r : List ℕ × Option ℕ) (p : Pool c)
      → r.1 ≡ some task
      → ((stolen_from c i round idx r p).worker i).place ≡ running task
  unfolding stolen_from
  stolen_running i round idx task (left, none) p e = absurd (none-some refl e)
  stolen_running i round idx task (left, some t) p e = rw (==_refl i) (ap running (some_same e))

  pub stolen_none :
      (i round idx : ℕ) (r : List ℕ × Option ℕ) (p : Pool c)
      → r.1 ≡ none
      → stolen_from c i round idx r p ≡ put_at c i (at_other (round + 1)) p
  unfolding stolen_from
  stolen_none i round idx (left, none) p e = refl
  stolen_none i round idx (left, some t) p e = absurd (none-some e refl)
