-- ===== src/LockFree.antt =====
-- cpp_concurrency_2nd/lock_free_stack.cpp, `lock_free_stack_7`: the lock-free stack whose nodes are held
-- by shared pointers.
--
-- A node is an address; it is not used again, since a thread that still holds a pointer keeps it alive.
-- Each atomic access is a step. `head.load()` of `push` is the atomic load of the shared pointer. The
-- copy of `old->next` in `pop` is a plain read, in a data race with the store of the pop that has taken
-- the node; the model lets it give any pointer while that store is pending, and does not model that the
-- copy of the shared pointer may also damage its count.
pub mod Invariant
pub mod Push
pub mod Pop
pub mod Steps
pub mod Values
pub mod History
mod Tests
use my_cpp_code.Common.{
  ℕ, zero, suc, ◌+◌, Bool, true, false, not, ◌&&◌, List, [], ◌∷◌, ◌++◌, Option, none, some, ◌==◌,
  if◌then◌else◌,
}

-- Where a thread is: out of the stack; after `make_shared`; before the `compare_exchange` of `push`;
-- before the load of `pop`; at its loop with `old`; before its `compare_exchange` with `old->next`
-- read; before the store to `old->next`.
pub data Local : Type 0 where
  idle loading : Local
  allocated pushing cutting : ℕ → Local
  testing : Option ℕ → Local
  trying : ℕ → Option ℕ → Local

-- What a thread is given to do: to begin a call, to go on, or to go on with a `compare_exchange_weak`
-- that fails for no reason. `torn j v` goes on too; but where thread `j` is about to store to
-- `old->next`, the copy of `old->next`, a plain read that races with that store, gives `v`.
pub data Move (T : Type 0) : Type 0 where
  begin_push : T → Move T
  begin_pop go_on weak_fail : Move T
  torn : ℕ → Option ℕ → Move T

pub record Stack (T : Type 0) : Type 0 where
  pub fresh : ℕ
  pub cell : ℕ → Option T
  pub link : ℕ → Option ℕ
  pub head : Option ℕ
  pub local : ℕ → Local

-- What happens to the stack in a step: a value is put on it or taken, or it is seen to be empty.
pub data Event (T : Type 0) : Type 0 where
  put : T → Event T
  took : Option T → Event T
  saw_empty : Event T

abbrev pub assign : {A : Type 0} → ℕ → A → (ℕ → A) → ℕ → A
assign i v f j = if j == i then v else f j

abbrev pub same_pointer : Option ℕ → Option ℕ → Bool
same_pointer none none = true
same_pointer none (some b) = false
same_pointer (some a) none = false
same_pointer (some a) (some b) = a == b

unfoldable pub empty_stack : {T : Type 0} → Stack T
empty_stack = record {
  fresh = 0;
  cell = λ a. none;
  link = λ a. none;
  head = none;
  local = λ i. idle;
}

-- `old` receives the head, by the load or by a `compare_exchange` that fails.
unfoldable pub load_old : {T : Type 0} → ℕ → Stack T → List (Event T) × Stack T
load_old i s = (
  elim s.head [ none ↦ saw_empty ∷ [] | some a ↦ [] ],
  record s { local = assign i (testing s.head) s.local },
)

unfoldable pub exchange_push : {T : Type 0} → ℕ → ℕ → Bool → Stack T → List (Event T) × Stack T
exchange_push i nd fails s =
    if same_pointer s.head (s.link nd) && not fails
    then (
      elim (s.cell nd) [ none ↦ [] | some x ↦ put x ∷ [] ],
      record s { head = some nd; local = assign i idle s.local },
    )
    else ([], record s { link = assign nd s.head s.link })

unfoldable pub exchange_pop :
    {T : Type 0} → ℕ → ℕ → Option ℕ → Bool → Stack T → List (Event T) × Stack T
unfolding load_old
exchange_pop i old nxt fails s =
    if same_pointer s.head (some old) && not fails
    then (took (s.cell old) ∷ [], record s { head = nxt; local = assign i (cutting old) s.local })
    else load_old i s

-- What a copy of `old->next` gives beside another thread.
unfoldable pub racing : ℕ → Local → Option ℕ → Option ℕ → Option ℕ
racing old (cutting a) v next = if a == old then v else next
racing old _ v next = next

-- A step of thread `i`, from where it is.
unfoldable pub step_from : {T : Type 0} → ℕ → Local → Move T → Stack T → List (Event T) × Stack T
unfolding load_old exchange_push exchange_pop racing
step_from i idle (begin_push x) s = (
  [],
  record s {
    fresh = s.fresh + 1;
    cell = assign s.fresh (some x) s.cell;
    link = assign s.fresh none s.link;
    local = assign i (allocated s.fresh) s.local;
  },
)
step_from i idle begin_pop s = ([], record s { local = assign i loading s.local })
step_from i idle move s = ([], s)
step_from i (allocated nd) move s =
    ([], record s { link = assign nd s.head s.link; local = assign i (pushing nd) s.local })
step_from i (pushing nd) weak_fail s = exchange_push i nd true s
step_from i (pushing nd) move s = exchange_push i nd false s
step_from i loading move s = load_old i s
step_from i (testing none) move s = ([], record s { local = assign i idle s.local })
step_from i (testing (some old)) (torn j v) s =
    ([], record s { local = assign i (trying old (racing old (s.local j) v (s.link old))) s.local })
step_from i (testing (some old)) move s =
    ([], record s { local = assign i (trying old (s.link old)) s.local })
step_from i (trying old nxt) weak_fail s = exchange_pop i old nxt true s
step_from i (trying old nxt) move s = exchange_pop i old nxt false s
step_from i (cutting old) move s =
    ([], record s { link = assign old none s.link; local = assign i idle s.local })

-- The threads run in the order of a schedule.
unfoldable pub run : {T : Type 0} → List (ℕ × Move T) → Stack T → List (Event T) × Stack T
unfolding step_from
run [] s = ([], s)
run ((i, move) ∷ schedule) s =
    let (now, s') = step_from i (s.local i) move s in
    let (later, s'') = run schedule s' in (now ++ later, s'')
