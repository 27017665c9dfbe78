-- ===== src/Timers/Expiry.antt =====
-- timer_queue.cpp, `getExpired`: which timers are taken out of the set.
use my_cpp_code.Common.{
  ℕ, ◌≤◌, ◌<◌, ◌≡◌, refl, arith, true, List, [], ◌∷◌, ◌++◌, All, Bool-cases, inl, inr,
}
use my_cpp_code.Timers.{Entry, TimerQueue, entry_lt, below, from_bound, get_expired, uintptr_max}
use my_cpp_code.Timers.Order.{IsSorted}

below-append : (e : Entry) (es : List Entry) → (below e es ++ from_bound e es) ≡ es
unfolding below from_bound
below-append e [] = refl
below-append e (x ∷ xs) = ground (arith, below-append e xs)

below-All : (e : Entry) (es : List Entry) → All (λ x. entry_lt x e ≡ true) (below e es)
unfolding below
below-All e [] = tt
below-All e (x ∷ xs) = ground (arith, below-All e xs)

All-map : (P Q : Entry → Type 0) (es : List Entry) → ((e : Entry) → P e → Q e) → All P es → All Q es
All-map P Q [] f h = tt
All-map P Q (e ∷ es) f h = (f e h.0, All-map P Q es f h.1)

from_bound-later :
    (now w p : ℕ) (es : List Entry)
    → now < w
    → All (λ x. entry_lt (w, p) x ≡ true) es
    → All (λ x. now < x.0) es
from_bound-later now w p [] h k = tt
from_bound-later now w p ((v, q) ∷ es) h k =
    (unfold entry_lt in ground arith, from_bound-later now w p es h k.1)

from_bound_lem :
    (now : ℕ) (es : List Entry)
    → IsSorted es
    → All (λ e. e.1 < uintptr_max) es
    → All (λ e. now < e.0) (from_bound (now, uintptr_max) es)
      × IsSorted (from_bound (now, uintptr_max) es)
unfolding from_bound
from_bound_lem now [] s b = (tt, tt)
from_bound_lem now ((w, p) ∷ es) s b = elim (Bool-cases (entry_lt (w, p) (now, uintptr_max))) [
  | inl lt ↦ rw lt (from_bound_lem now es s.1 b.1)
  | inr ge ↦
      let later : now < w = unfold entry_lt in ground arith in
      rw ge ((later, from_bound-later now w p es later s.0), s)
]

-- On an ordered set of timers with pointers below the greatest, `getExpired(now)` splits the set
-- in two: it hands out exactly the timers whose deadline has come, in order, and keeps exactly
-- those whose deadline lies ahead, in order.
pub get_expired_lem :
    (q : TimerQueue) (now : ℕ)
    → IsSorted q.timers
    → All (λ e. e.1 < uintptr_max) q.timers
    → let (expired, q') = get_expired q now in
      ((expired ++ q'.timers) ≡ q.timers)
      × All (λ e. e.0 ≤ now) expired
      × All (λ e. now < e.0) q'.timers
      × IsSorted q'.timers
unfolding get_expired
get_expired_lem q now s b =
    let (later, sorted) = from_bound_lem now q.timers s b in
    (
      below-append (now, uintptr_max) q.timers,
      All-map (λ e. entry_lt e (now, uintptr_max) ≡ true) (λ e. e.0 ≤ now)
          (below (now, uintptr_max) q.timers) (λ e h. unfold entry_lt in ground arith)
          (below-All (now, uintptr_max) q.timers),
      later,
      sorted,
    )
