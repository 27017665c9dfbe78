-- ===== src/Parallel/Find.antt =====
-- parallel_find_accu_async_for_each.cpp, `parallel_find`: the threads, their promise and their flag.
--
-- `hit` tells whether the element at an offset equals `match`. A load of the flag, the call of
-- `set_value` and the store to the flag are steps of their own, between which other threads run.
pub mod Invariant
pub mod Moves
pub mod Result
use my_cpp_code.Common.{
  ℕ, zero, suc, ◌+◌, Bool, true, false, ◌||◌, List, [], ◌∷◌, Option, none, some, ltb, ◌==◌,
  if◌then◌else◌,
}
use my_cpp_code.Parallel.{Range, num_threads, ranges}

-- Where a thread is in `find_ele`: before the loop's condition, in its body, before the store, or out.
pub data Status : Type 0 where
  testing comparing storing finished : Status

pub record Thread : Type 0 where
  pub from : ℕ
  pub st : ℕ
  pub en : ℕ
  pub status : Status

pub record Search : Type 0 where
  pub thread : ℕ → Thread
  pub result : Option ℕ
  pub done : Bool

abbrev pub set_thread : ℕ → Thread → (ℕ → Thread) → ℕ → Thread
set_thread i t thread j = if j == i then t else thread j

abbrev pub with_status : Status → Thread → Thread
with_status v t = record t { status = v }

-- The next step of thread `i`. A second `set_value` throws, `set_exception` throws too, and the thread
-- leaves by the inner handler.
unfoldable pub advance : (ℕ → Bool) → ℕ → Status → Search → Search
advance hit i testing s =
    let t = s.thread i in
    if t.st == t.en || s.done
    then record s { thread = set_thread i (with_status finished t) s.thread }
    else record s { thread = set_thread i (with_status comparing t) s.thread }
advance hit i comparing s =
    let t = s.thread i in
    if hit t.st
    then elim s.result [
      | none ↦ record s {
        thread = set_thread i (with_status storing t) s.thread;
        result = some t.st;
      }
      | some p ↦ record s { thread = set_thread i (with_status finished t) s.thread }
    ]
    else record s { thread = set_thread i (record t { st = t.st + 1; status = testing }) s.thread }
advance hit i storing s = record s {
  thread = set_thread i (with_status finished (s.thread i)) s.thread;
  done = true;
}
advance hit i finished s = s

unfoldable pub run : (ℕ → Bool) → List ℕ → Search → Search
unfolding advance
run hit [] s = s
run hit (i ∷ schedule) s = run hit schedule (advance hit i (s.thread i).status s)

abbrev pub range_at : List Range → ℕ → Range
range_at [] i = (0, 0)
range_at (r ∷ rs) zero = r
range_at (r ∷ rs) (suc i) = range_at rs i

-- A thread that is never started counts as finished.
unfoldable pub start_search : ℕ → ℕ → Search
unfolding ranges num_threads
start_search hardware size = record {
  thread = λ i.
      let r = range_at (ranges hardware size) i in
      let status = if ltb i (num_threads hardware size) then testing else finished in
      record { from = r.0; st = r.0; en = r.1; status = status };
  result = none;
  done = false;
}

-- What `parallel_find` returns after the threads have been joined; `lst` is the offset `size`.
unfoldable pub returned : ℕ → Search → Option ℕ
returned size s = if s.done then s.result else some size

-- The threads run in the order of a schedule.
unfoldable pub parallel_find : (ℕ → Bool) → ℕ → ℕ → List ℕ → Option ℕ
unfolding returned start_search run
parallel_find hit hardware size schedule =
    if size == 0 then some size else returned size (run hit schedule (start_search hardware size))
