-- ===== src/WorkStealing/Found.antt =====
-- thread_pool.cpp: a worker that no other disturbs finds a task, wherever one is queued.
use my_cpp_code.Common.{
  ℕ, zero, suc, ◌+◌, ◌%◌, ◌≤◌, ◌<◌, ◌≡◌, ◌≢◌, ◌⊎◌, refl, sym, ap, ◌∙◌, arith, List, [], ◌∷◌, none,
  lt→ltb, Option-cases, inl, inr,
}
use mathlib.Core.Path.{subst}
use my_cpp_code.SafeQueue.Interface.{QueueClass, front}
use my_cpp_code.WorkStealing.{
  Place, at_local, at_pool, at_other, Pool, put_at, try_pop_front, try_steal, popped_local,
  popped_pool, stolen_from, steal_from, step,
}
use my_cpp_code.WorkStealing.Turns.{
  round_of, none-some, try_steal-none, Reaches, put_at_queue, put_at_place, now, later,
  popped_running, popped_none, taken_running, taken_none, stolen_running, stolen_none,
}

module _ (c : QueueClass ℕ) where
  open c use {contents, popped}

  steals :
      (i round : ℕ) (p : Pool c)
      → round < p.size
      → step c i (at_other round) p
        ≡ stolen_from c i round
            ((i + round + 1) % p.size)
            (try_steal (p.worker ((i + round + 1) % p.size)).queue)
            p
  unfolding step steal_from
  steals i round p l = rw (lt→ltb round p.size l) refl

  scan_round :
      (n round i : ℕ) (p : Pool c)
      → i < p.size
      → round < p.size
      → (p.worker i).place ≡ at_other round
      → ((p.worker ((i + round + 1) % p.size)).queue ≡ []
          → Reaches c i n (put_at c i (at_other (round + 1)) p))
      → Reaches c i (suc n) p
  scan_round n round i p l small e on =
      let idx = (i + round + 1) % p.size in
      let r = try_steal (p.worker idx).queue in
      let taken = steals i round p small in
      elim (Option-cases r.1) [
        | inr (task, got) ↦ now c i n (at_other round) p task l e (
            ap (λ (q : Pool c). (q.worker i).place) taken
            ∙ stolen_running c i round idx task r p got)
        | inl missed ↦ later c i n (at_other round) p l e (
            subst (Reaches c i n) (sym (taken ∙ stolen_none c i round idx r p missed))
              (on (try_steal-none _ missed)))
      ]

  -- The rounds from `round` on, of which the last in question finds a queue with a task.
  scan :
      (gap round i : ℕ) (p : Pool c)
      → i < p.size
      → round + gap < p.size
      → (p.worker i).place ≡ at_other round
      → (p.worker ((i + (round + gap) + 1) % p.size)).queue ≢ []
      → Reaches c i (suc gap) p
  scan zero round i p l small e some_task =
      let same : i + (round + 0) + 1 ≡ i + round + 1 = omega arith in
      scan_round zero round i p l (omega arith) e
        λ empty. absurd (some_task (ap (λ (n : ℕ). (p.worker (n % p.size)).queue) same ∙ empty))
  scan (suc gap) round i p l small e some_task =
      scan_round (suc gap) round i p l (omega arith) e λ empty.
        let same : i + (round + suc gap) + 1 ≡ i + (round + 1 + gap) + 1 = omega arith in
        scan gap (round + 1) i (put_at c i (at_other (round + 1)) p) l (omega arith)
          (put_at_place c i (at_other (round + 1)) p)
          (λ gone. some_task (
            ap (λ (n : ℕ). (p.worker (n % p.size)).queue) same
            ∙ sym (put_at_queue c i _ (at_other (round + 1)) p)
            ∙ gone))

  -- A task waits in some worker's queue, or in the pool's.
  abbrev pub Waits : Pool c → Type 0
  Waits p = ((j : ℕ) × (j < p.size) × ((p.worker j).queue ≢ [])) ⊎ (contents p.pool_queue ≢ [])

  empty_front : (l : List ℕ) → front l ≡ none → l ≡ []
  empty_front [] e = refl
  empty_front (x ∷ l) e = absurd (none-some e refl)

  Reaches-more : (i n m : ℕ) (p : Pool c) → n ≤ m → Reaches c i n p → Reaches c i m p
  Reaches-more i n m p le (k, small, task, h) = (k, omega arith, task, h)

  pool_step : (i : ℕ) (p : Pool c) → step c i at_pool p ≡ popped_pool c i (c.try_pop p.pool_queue) p
  unfolding step
  pool_step i p = refl

  local_step :
      (i : ℕ) (p : Pool c)
      → step c i at_local p ≡ popped_local c i (try_pop_front (p.worker i).queue) p
  unfolding step
  local_step i p = refl

  from_pool :
      (i : ℕ) (p : Pool c)
      → i < p.size
      → (p.worker i).place ≡ at_pool
      → Waits p
      → Reaches c i (suc p.size) p
  from_pool i p l e waits = elim (Option-cases (c.try_pop p.pool_queue).1) [
    | inr (task, got) ↦ now c i p.size at_pool p task l e (
        ap (λ (q : Pool c). (q.worker i).place) (pool_step i p)
        ∙ taken_running c i task (c.try_pop p.pool_queue) p got)
    | inl missed ↦ later c i p.size at_pool p l e (
        subst (Reaches c i p.size)
          (sym (pool_step i p ∙ taken_none c i (c.try_pop p.pool_queue) p missed))
          (elim waits [
            | inr pool ↦ absurd (pool (empty_front _ (sym (popped p.pool_queue) ∙ missed)))
            | inl (j, small, some_task) ↦
                let (round, few, at) = round_of p.size i j l small in
                let left = record p { pool_queue = (c.try_pop p.pool_queue).0 } in
                let q = put_at c i (at_other 0) left in
                let same : i + round + 1 ≡ i + (0 + round) + 1 = omega arith in
                Reaches-more i (suc round) p.size q few (
                  scan round 0 i q l (omega arith) (put_at_place c i (at_other 0) left) (λ gone.
                    some_task (
                      sym (put_at_queue c i j (at_other 0) left)
                      ∙ ap (λ (n : ℕ). (q.worker n).queue)
                          (sym at ∙ ap (λ (n : ℕ). n % p.size) same)
                      ∙ gone)))
          ]))
  ]

  Waits-put_at : (i : ℕ) (place : Place) (p : Pool c) → Waits p → Waits (put_at c i place p)
  Waits-put_at i place p (inl (j, small, some_task)) =
      inl (j, small, λ gone. some_task (sym (put_at_queue c i j place p) ∙ gone))
  Waits-put_at i place p (inr pool) = inr pool

  -- From the start of `run_pending_task`, with a task in the pool's queue or in that of any
  -- worker, a worker that no other disturbs runs a task within two steps more than there are
  -- threads.
  pub run_pending_task-Reaches :
      (i : ℕ) (p : Pool c)
      → i < p.size
      → (p.worker i).place ≡ at_local
      → Waits p
      → Reaches c i (p.size + 2) p
  run_pending_task-Reaches i p l e waits =
      let r = try_pop_front (p.worker i).queue in
      Reaches-more i (suc (suc p.size)) (p.size + 2) p (omega arith) (elim (Option-cases r.1) [
        | inr (task, got) ↦ now c i (suc p.size) at_local p task l e (
            ap (λ (q : Pool c). (q.worker i).place) (local_step i p)
            ∙ popped_running c i task r p got)
        | inl missed ↦ later c i (suc p.size) at_local p l e (
            subst (Reaches c i (suc p.size)) (sym (local_step i p ∙ popped_none c i r p missed)) (
              from_pool i (put_at c i at_pool p) l (put_at_place c i at_pool p)
                (Waits-put_at i at_pool p waits)))
      ])
