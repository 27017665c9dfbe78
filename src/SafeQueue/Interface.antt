-- ===== src/SafeQueue/Interface.antt =====
-- The queue that thread_pool.cpp asks for, `thread_safe_queue`, and `ts_queue` as one.
--
-- No file of the repository declares `thread_safe_queue`; a pool takes it as a parameter, with what
-- `ts_queue` of thread_safe_stack_queue.cpp does as its laws.
use my_cpp_code.Common.{
  ◌≡◌, refl, List, [], ◌∷◌, ◌++◌, Option, none, some, Bool-cases, inl, inr, ◌==◌,
}
use my_cpp_code.SafeQueue.{TsQueue, new_queue, push_queue, notify_one, try_pop, take_front}

-- What comes out of a queue with the contents `l`, and what stays.
abbrev pub front {ℓ} : {T : Type ℓ} → List T → Option T
front [] = none
front (x ∷ xs) = some x

abbrev pub behind {ℓ} : {T : Type ℓ} → List T → List T
behind [] = []
behind (x ∷ xs) = xs

pub record QueueClass (T : Type 0) : Type 1 where
  pub Queue : Type 0
  pub fresh : Queue
  pub contents : Queue → List T
  pub push : T → Queue → Queue
  pub try_pop : Queue → Queue × Option T
  pub contents-fresh : contents fresh ≡ []
  pub contents-push : (val : T) (q : Queue) → contents (push val q) ≡ contents q ++ (val ∷ [])
  pub popped : (q : Queue) → (try_pop q).1 ≡ front (contents q)
  pub contents-try_pop : (q : Queue) → contents (try_pop q).0 ≡ behind (contents q)

pub que-push : {T : Type 0} (val : T) (q : TsQueue T) → (push_queue val q).que ≡ q.que ++ (val ∷ [])
unfolding push_queue notify_one
que-push val q = elim (Bool-cases (q.blocked == 0)) [
  | inl idle ↦ rw idle refl
  | inr busy ↦ rw busy refl
]

pub front-take_front : {T : Type 0} (l : List T) (q : TsQueue T) → (take_front l q).1 ≡ front l
unfolding take_front
front-take_front [] q = refl
front-take_front (x ∷ rest) q = refl

pub behind-take_front :
    {T : Type 0} (l : List T) (q : TsQueue T) → q.que ≡ l → (take_front l q).0.que ≡ behind l
unfolding take_front
behind-take_front [] q e = e
behind-take_front (x ∷ rest) q e = refl

-- `ts_queue` is such a queue.
abbrev pub ts_queue_class : (T : Type 0) → QueueClass T
unfolding new_queue try_pop
ts_queue_class T = record {
  Queue = TsQueue T;
  fresh = new_queue;
  contents = λ q. q.que;
  push = push_queue;
  try_pop = try_pop;
  contents-fresh = refl;
  contents-push = que-push;
  popped = λ q. front-take_front q.que q;
  contents-try_pop = λ q. behind-take_front q.que q refl;
}
