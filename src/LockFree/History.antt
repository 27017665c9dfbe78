-- ===== src/LockFree/History.antt =====
-- lock_free_stack.cpp, `lock_free_stack_7`: every schedule's history is one of a stack.
use mathlib.Core.Path.{subst}
use my_cpp_code.Common.{inl, inr, sym, ◌∙◌, ◌≡◌, ◌≢◌, ℕ, refl, List, [], ◌∷◌, ◌++◌}
use my_cpp_code.LockFree.{cutting, Move, Stack, Event, empty_stack, step_from, run}
use my_cpp_code.LockFree.Invariant.{Phase, unused, Chain, Inv, Legal, Simulates}
use my_cpp_code.LockFree.Values.{Taken, Taken-left, Taken-right, Answers, step-Answers}
use my_cpp_code.LockFree.Steps.{step-Simulates}

module _ {T : Type 0} where
  Legal-append :
      (events more : List (Event T)) (l m n : List T)
      → Legal l events m
      → Legal m more n
      → Legal l (events ++ more) n
  Legal-append [] more l m n e f = rw e f
  Legal-append (v ∷ events) more l m n (k, a, e) f = (k, a, Legal-append events more k m n e f)

  run-Simulates :
      (schedule : List (ℕ × Move T)) (phase : ℕ → Phase) (chain : List ℕ) (l : List T) (s : Stack T)
      → Inv phase chain l s
      → let r = run schedule s in Simulates l r.0 r.1
  unfolding run
  run-Simulates [] phase chain l s h = record {
    phase = phase;
    chain = chain;
    values = l;
    inv = h;
    legal = refl;
  }
  run-Simulates ((i, move) ∷ schedule) phase chain l s h =
      let first = step-Simulates phase chain l s i h (s.local i) move refl (h.knows i) in
      let (now, s') = step_from i (s.local i) move s in
      let (later, s'') = run schedule s' in
      let rest = run-Simulates schedule first.phase first.chain first.values s' first.inv in
      record {
        phase = rest.phase;
        chain = rest.chain;
        values = rest.values;
        inv = rest.inv;
        legal = Legal-append now later l first.values rest.values first.legal rest.legal;
      }

  Answers-join :
      (s t u : Stack T) (now later : List (Event T))
      → Answers s (now, t)
      → Answers t (later, u)
      → Answers s (now ++ later, u)
  Answers-join s t u now later first rest j a e = elim (rest j a e) [
    | inl taken ↦ inl (Taken-right (u.cell a) now later taken)
    | inr (at, same) ↦ elim (first j a at) [
      | inl taken ↦
          inl (Taken-left (u.cell a) now later (subst (λ v. Taken v now) (sym same) taken))
      | inr (before, same') ↦ inr (before, same ∙ same')
    ]
  ]

  run-Answers :
      (schedule : List (ℕ × Move T)) (phase : ℕ → Phase) (chain : List ℕ) (l : List T) (s : Stack T)
      → Inv phase chain l s
      → Answers s (run schedule s)
  unfolding run
  run-Answers [] phase chain l s h = λ j a e. inr (e, refl)
  run-Answers ((i, move) ∷ schedule) phase chain l s h =
      let first = step-Simulates phase chain l s i h (s.local i) move refl (h.knows i) in
      let (now, s') = step_from i (s.local i) move s in
      let (later, s'') = run schedule s' in
      Answers-join s s' s'' now later (step-Answers phase chain l s i h (s.local i) move)
        (run-Answers schedule first.phase first.chain first.values s' first.inv)

  empty_stack-Inv : Inv (λ a. unused) [] [] (empty_stack {T = T})
  unfolding empty_stack
  empty_stack-Inv = record { room = λ a above. refl; path = refl; knows = λ i. tt }

  -- The nodes from the head on hold these values, the history leads to them, and what a thread that has
  -- unlinked a node is about to return has been taken.
  abbrev pub Refines : List (Event T) → Stack T → Type 0
  Refines events s =
      (phase : ℕ → Phase) × (chain : List ℕ) × (l : List T) × Chain s.cell s.link phase s.head chain
        l
      × Legal [] events l
      × ((i a : ℕ) → s.local i ≡ cutting a → Taken (s.cell a) events)

  -- Under every schedule of any number of threads, from an empty stack, with every failure of
  -- the weak exchanges, and with any pointer for the plain copy of `old->next` where it races
  -- with the store to it: the values put and taken and the empty stacks seen by
  -- `lock_free_stack_7`, in the order of the atomic accesses, are a history of a sequential
  -- stack, and its values are those of the nodes that hang from the head, of which none comes
  -- twice; and what a pop is about to return, once it has unlinked a node, has been taken.
  pub run-Refines :
      (schedule : List (ℕ × Move T)) → let r = run schedule empty_stack in Refines r.0 r.1
  run-Refines schedule =
      let r = run-Simulates schedule (λ a. unused) [] [] empty_stack empty_stack-Inv in
      (
        r.phase,
        r.chain,
        r.values,
        r.inv.path,
        r.legal,
        λ i a e. elim (run-Answers schedule (λ b. unused) [] [] empty_stack empty_stack-Inv i a e) [
          | inl taken ↦ taken
          | inr (before, same) ↦ absurd (not_begun i a before)
        ],
      )
    where
      not_begun : (i a : ℕ) → (empty_stack {T = T}).local i ≢ cutting a
      not_begun i a e = unfold empty_stack in cc
