-- ===== src/FooBar/Turns.antt =====
-- LT_1115_foobar.cpp, `FooBar`: the words alternate, and the threads never wait for each other in vain.
use my_cpp_code.Common.{
  ℕ, suc, ◌+◌, ◌≤◌, ◌<◌, ◌≡◌, ◌⊎◌, inl, inr, refl, ap, ap₂, ◌∙◌, arith, List, [], ◌∷◌, ltb, ◌==◌,
  Bool-cases,
}
use my_cpp_code.FooBar.{
  Role, foo, bar, Loop, acquiring, printing, releasing, FooBar, new_foo_bar, foo_step, bar_step,
  step, run,
}
use my_cpp_code.FooBar.Alternate.{alternate, alternate-foo, alternate-bar}

abbrev pub printed_by : Loop → ℕ
printed_by (acquiring i) = i
printed_by (printing i) = i
printed_by (releasing i) = i + 1

abbrev pub before_print : Loop → ℕ
before_print (printing i) = 1
before_print _ = 0

abbrev pub before_release : Loop → ℕ
before_release (releasing i) = 1
before_release _ = 0

-- There is one permit, in a semaphore or with a thread, and where it is tells who has printed more.
record Inv (n : ℕ) (s : FooBar) : Type 0 where
  size : s.n ≡ n
  permit :
      s.semf
        + s.semb
        + before_print s.foo_at
        + before_release s.foo_at
        + before_print s.bar_at
        + before_release s.bar_at
      ≡ 1
  lead :
      printed_by s.foo_at
      ≡ printed_by s.bar_at + s.semb + before_release s.foo_at + before_print s.bar_at
  within : printed_by s.foo_at ≤ n
  inside : before_print s.foo_at + printed_by s.foo_at ≤ n
  words : s.printed ≡ alternate (printed_by s.foo_at + printed_by s.bar_at)

foo_step-Inv : (n : ℕ) (s : FooBar) (l : Loop) → s.foo_at ≡ l → Inv n s → Inv n (foo_step l s)
unfolding foo_step
foo_step-Inv n s (acquiring i) e v =
    let at = ap printed_by e in
    let bp = ap before_print e in
    let br = ap before_release e in
    elim (Bool-cases (ltb i s.n)) [
      | inl going ↦ elim (Bool-cases (s.semf == 0)) [
        | inl blocked ↦ rw (going, blocked, foo_step) v
        | inr free ↦
            rw (going, free, foo_step)
              (record {
                size = v.size;
                permit = ground (arith, v.permit, bp, br);
                lead = omega (arith, v.lead, at, br);
                within = omega (arith, v.within, at);
                inside = ground (arith, v.size);
                words = v.words ∙ ap (λ k. alternate (k + printed_by s.bar_at)) at;
              })
      ]
      | inr over ↦ rw (over, foo_step) v
    ]
foo_step-Inv n s (printing i) e v =
    let at = ap printed_by e in
    let bp = ap before_print e in
    let br = ap before_release e in
    record {
      size = v.size;
      permit = omega (arith, v.permit, bp, br);
      lead = omega (arith, v.lead, at, br);
      within = omega (arith, v.inside, at, bp);
      inside = omega (arith, v.inside, at, bp);
      words =
          let pb = printed_by s.bar_at in
          let even : i + pb ≡ i + i = omega (arith, v.lead, v.permit, at, bp, br) in
          let next : suc (i + pb) ≡ i + 1 + pb = omega arith in
          alternate-foo (i + pb) i s.printed even (v.words ∙ ap (λ k. alternate (k + pb)) at)
          ∙ ap alternate next;
    }
foo_step-Inv n s (releasing i) e v =
    let at = ap printed_by e in
    let bp = ap before_print e in
    let br = ap before_release e in
    record {
      size = v.size;
      permit = omega (arith, v.permit, bp, br);
      lead = omega (arith, v.lead, at, br);
      within = omega (arith, v.within, at);
      inside = omega (arith, v.inside, at);
      words = v.words ∙ ap (λ k. alternate (k + printed_by s.bar_at)) at;
    }

bar_step-Inv : (n : ℕ) (s : FooBar) (l : Loop) → s.bar_at ≡ l → Inv n s → Inv n (bar_step l s)
unfolding bar_step
bar_step-Inv n s (acquiring j) e v =
    let at = ap printed_by e in
    let bp = ap before_print e in
    let br = ap before_release e in
    elim (Bool-cases (ltb j s.n)) [
      | inl going ↦ elim (Bool-cases (s.semb == 0)) [
        | inl blocked ↦ rw (going, blocked, bar_step) v
        | inr free ↦
            rw (going, free, bar_step)
              (record {
                size = v.size;
                permit = ground (arith, v.permit, bp, br);
                lead = ground (arith, v.lead, at, bp);
                within = v.within;
                inside = v.inside;
                words = v.words ∙ ap (λ k. alternate (printed_by s.foo_at + k)) at;
              })
      ]
      | inr over ↦ rw (over, bar_step) v
    ]
bar_step-Inv n s (printing j) e v =
    let at = ap printed_by e in
    let bp = ap before_print e in
    let br = ap before_release e in
    record {
      size = v.size;
      permit = omega (arith, v.permit, bp, br);
      lead = omega (arith, v.lead, at, bp);
      within = v.within;
      inside = v.inside;
      words =
          let pf = printed_by s.foo_at in
          let odd : pf + j ≡ j + j + 1 = omega (arith, v.lead, v.permit, at, bp, br) in
          let next : suc (pf + j) ≡ pf + (j + 1) = omega arith in
          alternate-bar (pf + j) j s.printed odd (v.words ∙ ap (λ k. alternate (pf + k)) at)
          ∙ ap alternate next;
    }
bar_step-Inv n s (releasing j) e v =
    let at = ap printed_by e in
    let bp = ap before_print e in
    let br = ap before_release e in
    record {
      size = v.size;
      permit = omega (arith, v.permit, bp, br);
      lead = omega (arith, v.lead, at, bp);
      within = v.within;
      inside = v.inside;
      words = v.words ∙ ap (λ k. alternate (printed_by s.foo_at + k)) at;
    }

run-Inv : (n : ℕ) (schedule : List Role) (s : FooBar) → Inv n s → Inv n (run schedule s)
unfolding run step
run-Inv n [] s v = v
run-Inv n (foo ∷ schedule) s v = run-Inv n schedule (step foo s) (foo_step-Inv n s s.foo_at refl v)
run-Inv n (bar ∷ schedule) s v = run-Inv n schedule (step bar s) (bar_step-Inv n s s.bar_at refl v)

new_foo_bar-Inv : (n : ℕ) → Inv n (new_foo_bar n)
unfolding new_foo_bar
new_foo_bar-Inv n = record {
  size = refl;
  permit = refl;
  lead = refl;
  within = omega arith;
  inside = omega arith;
  words = refl;
}

-- A thread that can go on: it is not at a semaphore without a permit.
abbrev pub Runs : ℕ → ℕ → Loop → Type 0
Runs n permits (acquiring i) = (i < n) × (0 < permits)
Runs n permits _ = Unit

abbrev pub Over : ℕ → FooBar → Type 0
Over n s = (s.foo_at ≡ acquiring n) × (s.bar_at ≡ acquiring n)

goes_on :
    (n : ℕ) (s : FooBar) (f b : Loop)
    → s.foo_at ≡ f
    → s.bar_at ≡ b
    → Inv n s
    → Runs n s.semf f ⊎ Runs n s.semb b ⊎ Over n s
goes_on n s (printing i) b e f v = inl tt
goes_on n s (releasing i) b e f v = inl tt
goes_on n s (acquiring i) (printing j) e f v = inr (inl tt)
goes_on n s (acquiring i) (releasing j) e f v = inr (inl tt)
goes_on n s (acquiring i) (acquiring j) e f v =
    let at = ap printed_by e in
    let bt = ap printed_by f in
    let none_held : s.semf + s.semb ≡ 1 = omega (
      arith,
      v.permit,
      ap before_print e,
      ap before_print f,
      ap before_release e,
      ap before_release f,
    ) in
    let apart : i ≡ j + s.semb =
      omega (arith, v.lead, at, bt, ap before_release e, ap before_print f) in
    elim (Bool-cases (s.semb == 0)) [
      | inl with_foo ↦ elim (Bool-cases (ltb i n)) [
        | inl going ↦ inl (ground arith)
        | inr over ↦
            let ei : i ≡ n = ground (arith, v.within, at) in
            let ej : j ≡ n = ground (arith, ei, apart) in
            inr (inr (e ∙ ap acquiring ei, f ∙ ap acquiring ej))
      ]
      | inr with_bar ↦ inr (inl (ground (arith, v.within, at)))
    ]

-- Under every schedule the words alternate, beginning with `foo`; and there is a thread that can
-- go on, unless both are through with their `n` rounds and have printed `n` times each.
pub run-alternate :
    (n : ℕ) (schedule : List Role)
    → let s = run schedule (new_foo_bar n) in
      (s.printed ≡ alternate (printed_by s.foo_at + printed_by s.bar_at))
      × (Runs n s.semf s.foo_at
          ⊎ Runs n s.semb s.bar_at
          ⊎ (Over n s × (s.printed ≡ alternate (n + n))))
run-alternate n schedule =
    let s = run schedule (new_foo_bar n) in
    let v = run-Inv n schedule (new_foo_bar n) (new_foo_bar-Inv n) in
    (
      v.words,
      elim (goes_on n s s.foo_at s.bar_at refl refl v) [
        | inl f ↦ inl f
        | inr (inl b) ↦ inr (inl b)
        | inr (inr (ef, eb)) ↦ inr (
            inr (
              (ef, eb),
              v.words ∙ ap₂ (λ a b. alternate (a + b)) (ap printed_by ef) (ap printed_by eb),
            ))
      ],
    )
