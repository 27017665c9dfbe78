-- ===== src/Timers/Order.antt =====
-- timer_queue.cpp: the set of timers is ordered by deadline.
use my_cpp_code.Common.{
  ℕ, ◌+◌, ◌-◌, ◌*◌, ◌<◌, ◌≡◌, ◌↔◌, refl, arith, true, false, List, [], ◌∷◌, All, ltb, Bool-cases,
  ltb→lt, lt→ltb, inl, inr, if◌then◌else◌,
}
use my_cpp_code.Timers.{Entry, entry_lt, set_insert, is_earlier, timer_delay}

-- The entries stand in strictly rising order.
abbrev pub IsSorted : List Entry → Type 0
IsSorted [] = Unit
IsSorted (e ∷ es) = All (λ x. entry_lt e x ≡ true) es × IsSorted es

pub entry_lt_trans :
    (a b c : Entry) → entry_lt a b ≡ true → entry_lt b c ≡ true → entry_lt a c ≡ true
unfolding entry_lt
entry_lt_trans (u, p) (v, q) (w, r) h k = ground arith

entry_lt_total : (a b : Entry) → entry_lt a b ≡ false → entry_lt b a ≡ false → a ≡ b
unfolding entry_lt
entry_lt_total (u, p) (v, q) h k = ground arith

All-below_trans :
    (a b : Entry) (es : List Entry)
    → entry_lt a b ≡ true
    → All (λ x. entry_lt b x ≡ true) es
    → All (λ x. entry_lt a x ≡ true) es
All-below_trans a b [] h k = tt
All-below_trans a b (e ∷ es) h k = (entry_lt_trans a b e h k.0, All-below_trans a b es h k.1)

pub set_insert-All {ℓ} :
    (P : Entry → Type ℓ) (e : Entry) (es : List Entry) → P e → All P es → All P (set_insert e es)
unfolding set_insert
set_insert-All P e [] h k = (h, tt)
set_insert-All P e (x ∷ xs) h k = elim (Bool-cases (entry_lt e x)) [
  | inl lt ↦ rw lt (h, k)
  | inr ge ↦ elim (Bool-cases (entry_lt x e)) [
    | inl gt ↦ rw (ge, gt) (k.0, set_insert-All P e xs h k.1)
    | inr same ↦ rw (ge, same) k
  ]
]

-- Inserting an entry keeps the order.
pub set_insert-IsSorted : (e : Entry) (es : List Entry) → IsSorted es → IsSorted (set_insert e es)
unfolding set_insert
set_insert-IsSorted e [] s = (tt, tt)
set_insert-IsSorted e (x ∷ xs) s = elim (Bool-cases (entry_lt e x)) [
  | inl lt ↦ rw lt ((lt, All-below_trans e x xs lt s.0), s)
  | inr ge ↦ elim (Bool-cases (entry_lt x e)) [
    | inl gt ↦ rw (ge, gt) (set_insert-All _ e xs gt s.0, set_insert-IsSorted e xs s.1)
    | inr same ↦ rw (ge, same) s
  ]
]

-- On an ordered set, `insert` says that the earliest deadline has changed exactly when the new
-- deadline lies before every old one.
pub is_earlier_iff :
    (when : ℕ) (es : List Entry)
    → IsSorted es
    → (is_earlier when es ≡ true) ↔ All (λ x. when < x.0) es
unfolding is_earlier
is_earlier_iff when [] s = ((λ _. tt), λ _. refl)
is_earlier_iff when ((w, p) ∷ es) s =
    ((λ h. (ltb→lt when w h, later es (ltb→lt when w h) s.0)), λ h. lt→ltb when w h.0)
  where
    later :
        (xs : List Entry)
        → when < w
        → All (λ x. entry_lt (w, p) x ≡ true) xs
        → All (λ x. when < x.0) xs
    later [] h k = tt
    later ((v, q) ∷ xs) h k = (unfold entry_lt in ground arith, later xs h k.1)

-- The delay that the timer is armed with is the time to the deadline and at least 100 microseconds,
-- split into seconds and less than a second of nanoseconds.
pub timer_delay_lem :
    (expiration now : ℕ)
    → let (seconds, nanos) = timer_delay expiration now in
      (seconds * 1000000000 + nanos
        ≡ 1000 * (if ltb expiration (now + 100) then 100 else expiration - now))
      × (nanos < 1000000000)
unfolding timer_delay
timer_delay_lem expiration now = ground arith
