-- ===== src/FooBar/Polling/Order.antt =====
-- LT_1115_foobar.cpp, `FooBar_1`: the words alternate, and a thread can always go on.
use my_cpp_code.Common.{
  ℕ, suc, ◌+◌, ◌-◌, ◌%◌, ◌≤◌, ◌<◌, ◌≡◌, ◌⊎◌, inl, inr, refl, ap, sym, ◌∙◌, arith, Bool, true, false,
  List, [], ◌∷◌, ltb, ◌==◌, Bool-cases,
}
use my_cpp_code.FooBar.{Role, foo, bar}
use my_cpp_code.FooBar.Alternate.{alternate, alternate-foo, alternate-bar}
use my_cpp_code.FooBar.Polling.{
  Spot, loading, printing, adding, Polling, new_polling, foo_step, bar_step, step_of, run,
}

abbrev pub round_at : Spot → ℕ
round_at (loading i) = i
round_at (printing i) = i
round_at (adding i) = i

-- One word ahead of the counter while a thread stands before its addition.
abbrev pub ahead : Spot → ℕ
ahead (adding i) = 1
ahead _ = 0

-- Behind a load that let it through.
abbrev entered : Spot → Bool
entered (loading i) = false
entered _ = true

record Inv (n : ℕ) (s : Polling) : Type 0 where
  size : s.n ≡ n
  lead : round_at s.foo_at ≡ round_at s.bar_at + s.ati % 2
  total : s.ati ≡ round_at s.foo_at + round_at s.bar_at
  within : round_at s.foo_at ≤ n
  foo_in : entered s.foo_at ≡ true → (s.ati % 2 ≡ 0) × (round_at s.foo_at < n)
  bar_in : entered s.bar_at ≡ true → s.ati % 2 ≡ 1
  words : s.printed ≡ alternate (s.ati + ahead s.foo_at + ahead s.bar_at)

-- While one thread stands behind its load the other does not.
outside-zero : (l : Spot) → (entered l ≡ true → ⊥) → ahead l ≡ 0
outside-zero (loading i) h = refl
outside-zero (printing i) h = absurd (h refl)
outside-zero (adding i) h = absurd (h refl)

foo_step-Inv : (n : ℕ) (l : Spot) (s : Polling) → s.foo_at ≡ l → Inv n s → Inv n (foo_step l s)
unfolding foo_step
foo_step-Inv n (loading i) s e v = ground arith
foo_step-Inv n (printing i) s e v =
    let (even, going) = v.foo_in (ap entered e) in
    let other = outside-zero s.bar_at (λ h. omega (arith, v.bar_in h, even)) in
    let none_ahead = ap ahead e in
    let k = round_at s.bar_at in
    let count : suc (s.ati + ahead s.foo_at + ahead s.bar_at) ≡ s.ati + 1 + ahead s.bar_at =
      omega (arith, none_ahead) in
    record {
      size = v.size;
      lead = ap round_at (sym e) ∙ v.lead;
      total = v.total ∙ ap (λ (x : ℕ). x + round_at s.bar_at) (ap round_at e);
      within = omega (arith, v.within, ap round_at e);
      foo_in = λ h. (even, omega (arith, going, ap round_at e));
      bar_in = v.bar_in;
      words =
          alternate-foo (s.ati + ahead s.foo_at + ahead s.bar_at) k s.printed
            (omega (arith, v.total, v.lead, even, other, none_ahead)) v.words
          ∙ ap alternate count;
    }
foo_step-Inv n (adding i) s e v = ground arith

bar_step-Inv : (n : ℕ) (l : Spot) (s : Polling) → s.bar_at ≡ l → Inv n s → Inv n (bar_step l s)
unfolding bar_step
bar_step-Inv n (loading i) s e v = ground arith
bar_step-Inv n (printing i) s e v =
    let odd = v.bar_in (ap entered e) in
    let other = outside-zero s.foo_at (λ h. omega (arith, (v.foo_in h).0, odd)) in
    let none_ahead = ap ahead e in
    let k = round_at s.bar_at in
    let count : suc (s.ati + ahead s.foo_at + ahead s.bar_at) ≡ s.ati + ahead s.foo_at + 1 =
      omega (arith, none_ahead) in
    record {
      size = v.size;
      lead = v.lead ∙ ap (λ (x : ℕ). x + s.ati % 2) (ap round_at e);
      total = v.total ∙ ap (λ (x : ℕ). round_at s.foo_at + x) (ap round_at e);
      within = v.within;
      foo_in = v.foo_in;
      bar_in = λ h. odd;
      words =
          alternate-bar (s.ati + ahead s.foo_at + ahead s.bar_at) k s.printed
            (omega (arith, v.total, v.lead, odd, other, none_ahead)) v.words
          ∙ ap alternate count;
    }
bar_step-Inv n (adding i) s e v = ground arith

step_of-Inv : (n : ℕ) (r : Role) (s : Polling) → Inv n s → Inv n (step_of r s)
unfolding step_of
step_of-Inv n foo s v = foo_step-Inv n s.foo_at s refl v
step_of-Inv n bar s v = bar_step-Inv n s.bar_at s refl v

run-Inv : (n : ℕ) (schedule : List Role) (s : Polling) → Inv n s → Inv n (run schedule s)
unfolding run
run-Inv n [] s v = v
run-Inv n (r ∷ schedule) s v = run-Inv n schedule (step_of r s) (step_of-Inv n r s v)

new_polling-Inv : (n : ℕ) → Inv n (new_polling n)
unfolding new_polling
new_polling-Inv n = ground arith

all_rounds :
    (n : ℕ) (s : Polling)
    → Inv n s
    → (s.ati % 2 == 0) ≡ true
    → ltb (round_at s.foo_at) n ≡ false
    → s.ati ≡ n + n
all_rounds n s v even over = ground (arith, v.lead, v.total, v.within)

-- A thread that its next step takes on: it is behind its load, or its load lets it through.
abbrev pub GoesOn : ℕ → ℕ → Spot → Type 0
GoesOn n turn (loading i) = (i < n) × (turn ≡ 0)
GoesOn n turn _ = Unit

going_on : (n turn : ℕ) (l : Spot) → turn ≡ 0 → round_at l < n → GoesOn n turn l
going_on n turn (loading i) e h = (h, e)
going_on n turn (printing i) e h = tt
going_on n turn (adding i) e h = tt

-- Under every schedule, even one that switches threads between a load, a word and the addition,
-- the words alternate, one for each value of the counter and one more for a thread that is about
-- to add; and the thread whose turn it is goes on in its next step, unless both have printed `n`
-- times.
pub run_polling-alternate :
    (n : ℕ) (schedule : List Role)
    → let s = run schedule (new_polling n) in
      (s.printed ≡ alternate (s.ati + ahead s.foo_at + ahead s.bar_at))
      × (GoesOn n (s.ati % 2) s.foo_at
          ⊎ GoesOn n (1 - s.ati % 2) s.bar_at
          ⊎ (s.printed ≡ alternate (n + n)))
run_polling-alternate n schedule =
    let s = run schedule (new_polling n) in
    let v = run-Inv n schedule (new_polling n) (new_polling-Inv n) in
    (
      v.words,
      elim (Bool-cases (s.ati % 2 == 0)) [
        | inl even ↦ elim (Bool-cases (ltb (round_at s.foo_at) n)) [
          | inl going ↦ inl (going_on n (s.ati % 2) s.foo_at (ground arith) (ground arith))
          | inr over ↦
              let full : s.ati + ahead s.foo_at + ahead s.bar_at ≡ n + n = omega (
                arith,
                outside-zero s.foo_at (λ h. ground (arith, v.foo_in h)),
                outside-zero s.bar_at (λ h. ground (arith, v.bar_in h)),
                all_rounds n s v even over,
              ) in
              inr (inr (v.words ∙ ap alternate full))
        ]
        | inr odd ↦ inr (
            inl (
              going_on n (1 - s.ati % 2) s.bar_at (ground arith)
                (ground (arith, v.lead, v.within))))
      ],
    )
