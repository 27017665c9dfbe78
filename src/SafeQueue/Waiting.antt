-- ===== src/SafeQueue/Waiting.antt =====
-- thread_safe_stack_queue.cpp: `ts_queue` is first in, first out, and loses no wakeup.
use my_cpp_code.Common.{
  suc, ◌≤◌, ◌<◌, ◌≡◌, refl, sym, ap, ◌∙◌, arith, false, List, [], ◌∷◌, ◌++◌, append_assoc, some,
  ◌==◌, length, length-append, Bool-cases, inl, inr, ◌⊎◌,
}
use my_cpp_code.SafeQueue.{
  TsQueue, new_queue, notify_one, take_front, wait_and_pop, pop_or_wait, Act, pushes, tries,
  arrives, tests, spurious, act, run,
}

module _ {ℓ} {T : Type ℓ} where
  record Inv (q : TsQueue T) : Type ℓ where
    order : q.pushed ≡ q.popped ++ q.que
    -- While a consumer waits, there is one awake for each element.
    woken : 0 < q.blocked → length q.que ≤ q.awake

  notify_one-Inv :
      (q : TsQueue T)
      → q.pushed ≡ q.popped ++ q.que
      → (0 < q.blocked → length q.que ≤ suc q.awake)
      → Inv (notify_one q)
  unfolding notify_one
  notify_one-Inv q e h = elim (Bool-cases (q.blocked == 0)) [
    | inl idle ↦ rw (idle, notify_one) (record { order = e; woken = λ x. absurd (ground arith) })
    | inr some_wait ↦ rw (some_wait, notify_one) (record { order = e; woken = λ x. ground arith })
  ]

  take_front-Inv : (l : List T) (q : TsQueue T) → q.que ≡ l → Inv q → Inv (take_front l q).0
  unfolding take_front
  take_front-Inv [] q e v = v
  take_front-Inv (x ∷ rest) q e v = record {
    order = v.order ∙ ap (◌++◌ q.popped) e ∙ sym (append_assoc q.popped (x ∷ []) rest);
    woken = λ h. omega (arith, v.woken h, ap length e);
  }

  pop_or_wait-Inv :
      (l : List T) (q : TsQueue T) → q.que ≡ l → 0 < q.awake → Inv q → Inv (pop_or_wait l q).0
  unfolding pop_or_wait take_front
  pop_or_wait-Inv [] q e h v = record { order = v.order; woken = λ x. omega (arith, ap length e) }
  pop_or_wait-Inv (x ∷ rest) q e h v = record {
    order = v.order ∙ ap (◌++◌ q.popped) e ∙ sym (append_assoc q.popped (x ∷ []) rest);
    woken = λ k. omega (arith, v.woken k, ap length e);
  }

  act-Inv : (a : Act T) (q : TsQueue T) → Inv q → Inv (act a q)
  unfolding act
  act-Inv (pushes val) q v =
      notify_one-Inv (record q { que = q.que ++ (val ∷ []); pushed = q.pushed ++ (val ∷ []) })
        (ap (λ (l : List T). l ++ (val ∷ [])) v.order ∙ append_assoc q.popped q.que (val ∷ []))
        (λ h. omega (arith, v.woken h, length-append q.que (val ∷ [])))
  act-Inv tries q v = take_front-Inv q.que q refl v
  act-Inv arrives q v = record { order = v.order; woken = λ h. omega (arith, v.woken h) }
  act-Inv tests q v = elim (Bool-cases (q.awake == 0)) [
    | inl nobody ↦ rw (nobody, act) v
    | inr somebody ↦ rw (somebody, act) (pop_or_wait-Inv q.que q refl (ground arith) v)
  ]
  act-Inv spurious q v = notify_one-Inv q v.order (λ h. omega (arith, v.woken h))

  run-Inv : (schedule : List (Act T)) (q : TsQueue T) → Inv q → Inv (run schedule q)
  unfolding run
  run-Inv [] q v = v
  run-Inv (a ∷ schedule) q v = run-Inv schedule (act a q) (act-Inv a q v)

  -- What can be said of a queue with waiting consumers.
  abbrev pub NotLost : TsQueue T → Type ℓ
  NotLost q = (q.blocked ≡ 0) ⊎ (q.que ≡ []) ⊎ ((x : T) × ((wait_and_pop q).1 ≡ some x))

  pops :
      (l : List T) (q : TsQueue T)
      → q.que ≡ l
      → Inv q
      → 0 < q.blocked
      → (l ≡ []) ⊎ ((x : T) × ((wait_and_pop q).1 ≡ some x))
  unfolding wait_and_pop pop_or_wait take_front
  pops [] q e v h = inl refl
  pops (x ∷ rest) q e v h =
      let up : (q.awake == 0) ≡ false = ground (arith, v.woken h, ap length e) in
      inr (x, rw (up, wait_and_pop) (ap (λ (k : List T). (pop_or_wait k q).1) e))

  -- Under every schedule of producers, consumers that wait and consumers that do not, and
  -- whatever wakes the waiting ones, what was pushed is what was popped and then what is queued,
  -- in order; and no wakeup is lost: while a consumer waits and an element is queued, the next
  -- consumer that is awake pops one.
  pub run-fifo :
      (schedule : List (Act T))
      → let q = run schedule new_queue in (q.pushed ≡ q.popped ++ q.que) × NotLost q
  unfolding new_queue
  run-fifo schedule =
      let q = run schedule new_queue in
      let v = run-Inv schedule new_queue (record { order = refl; woken = λ h. omega arith }) in
      (
        v.order,
        elim (Bool-cases (q.blocked == 0)) [
          | inl idle ↦ inl (ground arith)
          | inr some_wait ↦ elim (pops q.que q refl v (ground arith)) [
            | inl empty ↦ inr (inl empty)
            | inr found ↦ inr (inr found)
          ]
        ],
      )
