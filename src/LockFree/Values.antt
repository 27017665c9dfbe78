-- ===== src/LockFree/Values.antt =====
-- lock_free_stack.cpp, `lock_free_stack_7::pop`: the value that is returned is the one that was taken.
use my_cpp_code.Common.{
  ℕ, ◌≡◌, ◌≢◌, ◌⊎◌, inl, inr, refl, ap, sym, ◌∙◌, arith, Bool, true, false, not, ◌&&◌, List, [],
  ◌∷◌, ◌++◌, Option, none, some, ◌==◌, ==_iff, Bool-cases,
}
use mathlib.Core.Path.{subst}
use my_cpp_code.LockFree.{
  Local, idle, loading, allocated, pushing, cutting, testing, trying, Move, begin_push, begin_pop,
  go_on, weak_fail, torn, Stack, Event, put, took, saw_empty, assign, same_pointer, load_old,
  exchange_push, exchange_pop, racing, step_from,
}
use my_cpp_code.LockFree.Invariant.{Phase, unused, retired, Inv, Knows}

moved :
    (i : ℕ) (v : Local) (local : ℕ → Local) (j a : ℕ)
    → v ≢ cutting a
    → assign i v local j ≡ cutting a
    → local j ≡ cutting a
moved i v local j a ne e = elim (Bool-cases (j == i)) [
  | inl same ↦ absurd (ne (rw same at e))
  | inr other ↦ rw other at e
]

module _ {T : Type 0} where
  -- A value is among those taken.
  abbrev pub Taken : Option T → List (Event T) → Type 0
  Taken v [] = ⊥
  Taken v (put x ∷ events) = Taken v events
  Taken v (took w ∷ events) = (w ≡ v) ⊎ Taken v events
  Taken v (saw_empty ∷ events) = Taken v events

  pub Taken-left :
      (v : Option T) (events more : List (Event T)) → Taken v events → Taken v (events ++ more)
  Taken-left v [] more t = absurd t
  Taken-left v (put x ∷ events) more t = Taken-left v events more t
  Taken-left v (took w ∷ events) more (inl e) = inl e
  Taken-left v (took w ∷ events) more (inr t) = inr (Taken-left v events more t)
  Taken-left v (saw_empty ∷ events) more t = Taken-left v events more t

  pub Taken-right :
      (v : Option T) (events more : List (Event T)) → Taken v more → Taken v (events ++ more)
  Taken-right v [] more t = t
  Taken-right v (put x ∷ events) more t = Taken-right v events more t
  Taken-right v (took w ∷ events) more t = inr (Taken-right v events more t)
  Taken-right v (saw_empty ∷ events) more t = Taken-right v events more t

  -- A thread that is about to return `a`'s value has taken it in this step or before.
  abbrev pub Answers : Stack T → List (Event T) × Stack T → Type 0
  Answers s r =
      (j a : ℕ)
      → r.1.local j ≡ cutting a
      → Taken (r.1.cell a) r.0 ⊎ ((s.local j ≡ cutting a) × (r.1.cell a ≡ s.cell a))

module _ {T : Type 0} (phase : ℕ → Phase) (chain : List ℕ) (l : List T) (s : Stack T) (i : ℕ)
    (h : Inv phase chain l s) where
  allocate-Answers : (x : T) → Answers s (step_from i idle (begin_push x) s)
  unfolding step_from
  allocate-Answers x j a e =
      let before = moved i (allocated s.fresh) s.local j a (λ f. cc) e in
      let gone : phase a ≡ retired =
        subst (λ v. Knows s.cell s.link phase j v) before (h.knows j) in
      inr (
        before,
        elim (Bool-cases (a == s.fresh)) [
          | inl same ↦ absurd (
              clash
                (sym gone ∙ ap phase ((==_iff a s.fresh).0 same) ∙ h.room s.fresh (omega arith)))
          | inr other ↦ rw other refl
        ],
      )
    where
      clash : retired ≢ unused
      clash e = cc

  load-Answers : Answers s (load_old i s)
  unfolding load_old
  load-Answers j a e = inr (moved i (testing s.head) s.local j a (λ f. cc) e, refl)

  push-Answers : (nd : ℕ) (fails : Bool) → Answers s (exchange_push i nd fails s)
  unfolding exchange_push
  push-Answers nd fails = elim (Bool-cases (same_pointer s.head (s.link nd) && not fails)) [
    | inl same ↦
        rw (same, exchange_push) (λ j a e. inr (moved i idle s.local j a (λ f. cc) e, refl))
    | inr other ↦ rw (other, exchange_push) (λ j a e. inr (e, refl))
  ]

  pop-Answers :
      (old : ℕ) (nxt : Option ℕ) (fails : Bool) → Answers s (exchange_pop i old nxt fails s)
  unfolding exchange_pop
  pop-Answers old nxt fails = elim (Bool-cases (same_pointer s.head (some old) && not fails)) [
    | inl same ↦
        rw (same, exchange_pop)
          (λ j a e. elim (Bool-cases (old == a)) [
            | inl this ↦ inl (inl (ap s.cell ((==_iff old a).0 this)))
            | inr another ↦ inr (moved i (cutting old) s.local j a (λ f. ground (arith, f)) e, refl)
          ])
    | inr other ↦ rw (other, exchange_pop) load-Answers
  ]

  pub step-Answers : (v : Local) (move : Move T) → Answers s (step_from i v move s)
  unfolding step_from
  step-Answers idle (begin_push x) = allocate-Answers x
  step-Answers idle begin_pop = λ j a e. inr (moved i loading s.local j a (λ f. cc) e, refl)
  step-Answers idle go_on = λ j a e. inr (e, refl)
  step-Answers idle weak_fail = λ j a e. inr (e, refl)
  step-Answers idle (torn t v) = λ j a e. inr (e, refl)
  step-Answers loading move = load-Answers
  step-Answers (allocated nd) move =
      λ j a e. inr (moved i (pushing nd) s.local j a (λ f. cc) e, refl)
  step-Answers (pushing nd) weak_fail = push-Answers nd true
  step-Answers (pushing nd) (begin_push x) = push-Answers nd false
  step-Answers (pushing nd) begin_pop = push-Answers nd false
  step-Answers (pushing nd) go_on = push-Answers nd false
  step-Answers (pushing nd) (torn t v) = push-Answers nd false
  step-Answers (testing none) move = λ j a e. inr (moved i idle s.local j a (λ f. cc) e, refl)
  step-Answers (testing (some old)) (torn t v) = λ j a e.
      inr
        (moved i (trying old (racing old (s.local t) v (s.link old))) s.local j a (λ f. cc) e, refl)
  step-Answers (testing (some old)) (begin_push x) =
      λ j a e. inr (moved i (trying old (s.link old)) s.local j a (λ f. cc) e, refl)
  step-Answers (testing (some old)) begin_pop =
      λ j a e. inr (moved i (trying old (s.link old)) s.local j a (λ f. cc) e, refl)
  step-Answers (testing (some old)) go_on =
      λ j a e. inr (moved i (trying old (s.link old)) s.local j a (λ f. cc) e, refl)
  step-Answers (testing (some old)) weak_fail =
      λ j a e. inr (moved i (trying old (s.link old)) s.local j a (λ f. cc) e, refl)
  step-Answers (trying old nxt) weak_fail = pop-Answers old nxt true
  step-Answers (trying old nxt) (begin_push x) = pop-Answers old nxt false
  step-Answers (trying old nxt) begin_pop = pop-Answers old nxt false
  step-Answers (trying old nxt) go_on = pop-Answers old nxt false
  step-Answers (trying old nxt) (torn t v) = pop-Answers old nxt false
  step-Answers (cutting old) move = λ j a e. inr (moved i idle s.local j a (λ f. cc) e, refl)
