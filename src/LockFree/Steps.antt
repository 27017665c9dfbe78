-- ===== src/LockFree/Steps.antt =====
-- lock_free_stack.cpp, `lock_free_stack_7`: what each step does to the values on the stack.
use my_cpp_code.Common.{
  ℕ, ◌≡◌, ◌≢◌, refl, sym, ap, ◌∙◌, true, false, List, Option, none, some, ◌==◌, ==_iff, Bool-cases,
  inl, inr,
}
use my_cpp_code.LockFree.{
  Local, idle, loading, allocated, pushing, cutting, testing, trying, Move, begin_push, begin_pop,
  go_on, weak_fail, torn, Stack, assign, racing, step_from,
}
use my_cpp_code.LockFree.Invariant.{Phase, linked, retired, Knows, Inv, Simulates}
use my_cpp_code.LockFree.Push.{unchanged, quiet, allocate_step, link_step, push_step}
use my_cpp_code.LockFree.Pop.{load_step, cut_step, pop_step}

linked-retired : linked ≢ retired
linked-retired e = cc

module _ {T : Type 0} (phase : ℕ → Phase) (chain : List ℕ) (l : List T) (s : Stack T) (i : ℕ)
    (h : Inv phase chain l s) where
  -- A read that races is of a node that has left the stack.
  racing-linked :
      (old j : ℕ) (v : Option ℕ) (w : Local)
      → Knows s.cell s.link phase j w
      → phase old ≡ linked
      → s.link old ≡ racing old w v (s.link old)
  unfolding racing
  racing-linked old j v (cutting a) k on = elim (Bool-cases (a == old)) [
    | inl same ↦ absurd (linked-retired (sym on ∙ ap phase (sym ((==_iff a old).0 same)) ∙ k))
    | inr other ↦ rw other refl
  ]
  racing-linked old j v w k on = refl

  -- Every step puts a value on the stack, takes the first, sees it empty, or leaves it.
  pub step-Simulates :
      (v : Local) (move : Move T)
      → s.local i ≡ v
      → Knows s.cell s.link phase i v
      → let r = step_from i v move s in Simulates l r.0 r.1
  unfolding step_from
  step-Simulates idle (begin_push x) at k = allocate_step phase chain l s i h x
  step-Simulates idle begin_pop at k = quiet phase chain l s i h loading tt
  step-Simulates idle go_on at k = unchanged phase chain l s i h s h
  step-Simulates idle weak_fail at k = unchanged phase chain l s i h s h
  step-Simulates idle (torn j v) at k = unchanged phase chain l s i h s h
  step-Simulates loading move at k = load_step phase chain l s i h
  step-Simulates (allocated nd) move at k =
      link_step phase chain l s i h nd (pushing nd) (assign i (pushing nd) s.local) k k (λ j. refl)
  step-Simulates (pushing nd) weak_fail at k = push_step phase chain l s i h nd true k at
  step-Simulates (pushing nd) (begin_push x) at k = push_step phase chain l s i h nd false k at
  step-Simulates (pushing nd) begin_pop at k = push_step phase chain l s i h nd false k at
  step-Simulates (pushing nd) go_on at k = push_step phase chain l s i h nd false k at
  step-Simulates (pushing nd) (torn j v) at k = push_step phase chain l s i h nd false k at
  step-Simulates (testing none) move at k = quiet phase chain l s i h idle tt
  step-Simulates (testing (some old)) (torn j v) at k =
      quiet phase chain l s i h (trying old (racing old (s.local j) v (s.link old)))
        (k, racing-linked old j v (s.local j) (h.knows j))
  step-Simulates (testing (some old)) (begin_push x) at k =
      quiet phase chain l s i h (trying old (s.link old)) (k, λ e. refl)
  step-Simulates (testing (some old)) begin_pop at k =
      quiet phase chain l s i h (trying old (s.link old)) (k, λ e. refl)
  step-Simulates (testing (some old)) go_on at k =
      quiet phase chain l s i h (trying old (s.link old)) (k, λ e. refl)
  step-Simulates (testing (some old)) weak_fail at k =
      quiet phase chain l s i h (trying old (s.link old)) (k, λ e. refl)
  step-Simulates (trying old nxt) weak_fail at k = pop_step phase chain l s i h old nxt true k.1
  step-Simulates (trying old nxt) (begin_push x) at k =
      pop_step phase chain l s i h old nxt false k.1
  step-Simulates (trying old nxt) begin_pop at k = pop_step phase chain l s i h old nxt false k.1
  step-Simulates (trying old nxt) go_on at k = pop_step phase chain l s i h old nxt false k.1
  step-Simulates (trying old nxt) (torn j v) at k = pop_step phase chain l s i h old nxt false k.1
  step-Simulates (cutting old) move at k = cut_step phase chain l s i h old k
