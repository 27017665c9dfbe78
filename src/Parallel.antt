-- ===== src/Parallel.antt =====
-- cpp_concurrency_2nd/parallel_find_accu_async_for_each.cpp: how the parallel algorithms cut their
-- range, and the sums and loops over the pieces.
--
-- An iterator is its offset in the container. `hardware` is `std::thread::hardware_concurrency()`.
-- What the threads run has no shared state here, so a thread is the list of elements it goes through.
pub mod Ranges
pub mod Sums
pub mod Find
pub mod FindAsync
mod Tests
use my_cpp_code.Common.{
  ℕ, zero, suc, ◌+◌, ◌-◌, ◌*◌, ◌/◌, min, Bool, true, false, List, [], ◌∷◌, ◌++◌, map, Option, none,
  some, ltb, ◌==◌, if◌then◌else◌, length, slice,
}
use my_cpp_code.Common.Words.{add_size, sub_size}
use mathlib.Core.List.{foldl}
use mathlib.Core.Option.{bind}

-- A half-open range of offsets.
abbrev pub Range : Type 0
Range = ℕ × ℕ

unfoldable pub num_threads : ℕ → ℕ → ℕ
num_threads hardware size =
    let max_threads = sub_size (add_size size 25) 1 / 25 in
    min (if hardware == 0 then 2 else hardware) max_threads

-- The loop that starts the threads, and the rest for the calling thread.
unfoldable pub blocks : ℕ → ℕ → ℕ → ℕ → List Range
blocks zero block_size st lst = (st, lst) ∷ []
blocks (suc i) block_size st lst = (st, st + block_size) ∷ blocks i block_size (st + block_size) lst

unfoldable pub ranges : ℕ → ℕ → List Range
unfolding num_threads blocks
ranges hardware size =
    let threads = num_threads hardware size in blocks (threads - 1) (size / threads) 0 size

-- `std::accumulate`.
abbrev pub accumulate : {T : Type 0} → (T → T → T) → List T → T → T
accumulate plus l init = foldl plus init l

-- `parallel_accumulate`: each thread adds its block to a `T()` in `results`.
unfoldable pub parallel_accumulate : {T : Type 0} → (T → T → T) → T → ℕ → List T → T → T
unfolding ranges
parallel_accumulate plus default hardware l init =
    if length l == 0
    then init
    else let results =
        map (λ r. accumulate plus (slice l r.0 r.1) default) (ranges hardware (length l)) in
      accumulate plus results init

-- `parallel_accu`: the results of the futures, one after another, and that of the last block.
unfoldable pub add_futures : {T : Type 0} → (T → T → T) → T → List T → T
add_futures plus result [] = result
add_futures plus result (value ∷ futures) = add_futures plus (plus result value) futures

unfoldable pub parallel_accu : {T : Type 0} → (T → T → T) → T → ℕ → List T → T → T
unfolding ranges add_futures
parallel_accu plus default hardware l init =
    if length l == 0
    then init
    else add_futures plus init
        (map (λ r. accumulate plus (slice l r.0 r.1) default) (ranges hardware (length l)))

-- `parallel_for_each`: what each thread passes to `f`, in its order; the calling thread is the last.
unfoldable pub parallel_for_each : {T : Type 0} → ℕ → List T → List (List T)
unfolding ranges
parallel_for_each hardware l =
    if length l == 0 then [] else map (λ r. slice l r.0 r.1) (ranges hardware (length l))

-- `parallel_for_each_async`: the pieces that are not cut further, each for one thread.
unfoldable pub async_ranges : ℕ → ℕ → ℕ → Option (List Range)
unfolding bind
async_ranges zero fst lst = none
async_ranges (suc fuel) fst lst =
    let size = lst - fst in
    let md = fst + size / 2 in
    elim (size == 0) [
      | true ↦ some []
      | false ↦ elim (ltb size (2 * 25)) [
        | true ↦ some ((fst, lst) ∷ [])
        | false ↦ bind (async_ranges fuel fst md) λ first_half.
            bind (async_ranges fuel md lst) λ second_half. some (first_half ++ second_half)
      ]
    ]

unfoldable pub parallel_for_each_async : {T : Type 0} → ℕ → List T → Option (List (List T))
unfolding async_ranges bind
parallel_for_each_async fuel l =
    bind (async_ranges fuel 0 (length l)) λ pieces. some (map (λ r. slice l r.0 r.1) pieces)
