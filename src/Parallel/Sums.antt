-- ===== src/Parallel/Sums.antt =====
-- parallel_find_accu_async_for_each.cpp: the parallel sums are `std::accumulate`.
use my_cpp_code.Common.{
  ℕ, ◌^◌, ◌<◌, ◌≡◌, refl, ap, sym, ◌∙◌, arith, false, List, [], ◌∷◌, map, ◌==◌, length, slice,
  slice-all,
}
use my_cpp_code.Parallel.{
  Range, ranges, accumulate, parallel_accumulate, add_futures, parallel_accu,
}
use my_cpp_code.Parallel.Ranges.{Cover-flatten, ranges-Cover}
use mathlib.Core.List.{foldl, foldl-append, flatten}

-- What the split needs of `+`: it is associative, and `T()` changes nothing.
pub record Sum {T : Type 0} (plus : T → T → T) (default : T) : Type 0 where
  pub assoc : (a b c : T) → plus (plus a b) c ≡ plus a (plus b c)
  pub left : (a : T) → plus default a ≡ a
  pub right : (a : T) → plus a default ≡ a

module _ {T : Type 0} (plus : T → T → T) (default : T) (s : Sum plus default) where
  accumulate_from : (l : List T) (a : T) → plus a (accumulate plus l default) ≡ accumulate plus l a
  accumulate_from [] a = s.right a
  accumulate_from (x ∷ l) a =
      ap (λ v. plus a (foldl plus v l)) (s.left x)
      ∙ ap (plus a) (sym (accumulate_from l x))
      ∙ sym (s.assoc a x (accumulate plus l default))
      ∙ accumulate_from l (plus a x)

  accumulate_parts :
      (part : Range → List T) (rs : List Range) (a : T)
      → accumulate plus (map (λ r. accumulate plus (part r) default) rs) a
        ≡ accumulate plus (flatten (map part rs)) a
  unfolding flatten
  accumulate_parts part [] a = refl
  accumulate_parts part (r ∷ rs) a =
      ap (accumulate plus (map (λ q. accumulate plus (part q) default) rs))
        (accumulate_from (part r) a)
      ∙ accumulate_parts part rs (accumulate plus (part r) a)
      ∙ sym (foldl-append plus a (part r) (flatten (map part rs)))

  add_futures-accumulate :
      (futures : List T) (a : T) → add_futures plus a futures ≡ accumulate plus futures a
  unfolding add_futures
  add_futures-accumulate [] a = refl
  add_futures-accumulate (v ∷ futures) a = add_futures-accumulate futures (plus a v)

  -- On fewer than 2 ^ 63 elements, for a `+` that is associative and of which `T()` is the zero,
  -- both parallel sums, over however many threads, are the sequential sum.
  pub parallel_sums-accumulate :
      (hardware : ℕ) (l : List T) (init : T)
      → length l < 2 ^ 63
      → (parallel_accumulate plus default hardware l init ≡ accumulate plus l init)
        × (parallel_accu plus default hardware l init ≡ accumulate plus l init)
  unfolding parallel_accumulate parallel_accu
  parallel_sums-accumulate hardware [] init small = (refl, refl)
  parallel_sums-accumulate hardware (x ∷ l) init small =
      let whole = x ∷ l in
      let n = length whole in
      let rs = ranges hardware n in
      let part = λ (r : Range). slice whole r.0 r.1 in
      let nonempty : (n == 0) ≡ false = ground arith in
      let joined : flatten (map part rs) ≡ whole =
        Cover-flatten whole 0 rs n (ranges-Cover hardware n (omega arith) small)
        ∙ slice-all whole n refl in
      let sum = accumulate_parts part rs init ∙ ap (λ m. accumulate plus m init) joined in
      rw (nonempty, parallel_accumulate, parallel_accu)
        (sum, add_futures-accumulate (map (λ r. accumulate plus (part r) default) rs) init ∙ sum)
