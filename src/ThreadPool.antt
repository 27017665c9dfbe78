-- ===== src/ThreadPool.antt =====
-- myserver/include/event_loop_threadpool.h and myserver/common/event_loop_threadpool.cpp: the pool
-- that deals the connections out to the event loops.
--
-- A loop is any value. The loop of thread `i`, which `EventLoopThread::startLoop` returns, is
-- `start_loop i`.
pub mod RoundRobin
use my_cpp_code.Common.{
  ℕ, zero, suc, ◌+◌, Bool, true, false, ◌&&◌, List, [], ◌∷◌, ◌++◌, Option, none, some, leb, ◌==◌,
  if◌then◌else◌, length, get_elem?,
}

pub record ThreadPool (A : Type 0) : Type 0 where
  pub base_loop : A
  pub started : Bool
  pub num_threads : ℕ
  pub next : ℕ
  pub loops : List A

-- `++m_next; if (m_next >= n) m_next = 0;`
unfoldable pub advance : ℕ → ℕ → ℕ
advance next n = if leb n (next + 1) then 0 else next + 1

module _ {A : Type 0} where
  unfoldable pub new_pool : A → ThreadPool A
  new_pool base = record {
    base_loop = base;
    started = false;
    num_threads = 0;
    next = 0;
    loops = [];
  }

  unfoldable pub set_thread_num : ThreadPool A → ℕ → ThreadPool A
  set_thread_num p n = record p { num_threads = n }

  -- `for (i = from; n more rounds; ++i)`, one new loop in each round.
  unfoldable pub start_loops : (ℕ → A) → ℕ → ℕ → List A → List A
  start_loops start_loop zero from loops = loops
  start_loops start_loop (suc n) from loops =
      start_loops start_loop n (from + 1) (loops ++ (start_loop from ∷ []))

  -- The Boolean says whether the callback was called on the base loop.
  unfoldable pub start : (ℕ → A) → Bool → ThreadPool A → ThreadPool A × Bool
  unfolding start_loops
  start start_loop has_callback p = (
    record p { started = true; loops = start_loops start_loop p.num_threads 0 p.loops },
    p.num_threads == 0 && has_callback,
  )

  unfoldable pub deal : ThreadPool A → Option (A × ThreadPool A)
  unfolding advance
  deal p = elim (get_elem? p.loops p.next) [
    | none ↦ none
    | some loop ↦ some (loop, record p { next = advance p.next (length p.loops) })
  ]

  -- `none` would be a read behind the end of `m_v_loops`.
  unfoldable pub get_next_loop : ThreadPool A → Option (A × ThreadPool A)
  unfolding deal
  get_next_loop p = if length p.loops == 0 then some (p.base_loop, p) else deal p

  unfoldable pub get_all_loops : ThreadPool A → List A
  get_all_loops p = if length p.loops == 0 then p.base_loop ∷ [] else p.loops
