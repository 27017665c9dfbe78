-- ===== src/FooBar/Monitor/Turns.antt =====
-- LT_1115_foobar.cpp, `FooBar_2`: the words alternate, and no wakeup is lost.
use my_cpp_code.Common.{
  ℕ, suc, ◌+◌, ◌-◌, ◌%◌, ◌≤◌, ◌<◌, ◌≡◌, ◌⊎◌, inl, inr, refl, ap, ap₂, sym, ◌∙◌, arith, Bool, true,
  false, List, [], ◌∷◌, ◌++◌, ltb, ◌==◌, if◌then◌else◌, Bool-cases,
}
use my_cpp_code.FooBar.{Word, foo_word, bar_word, foo, bar}
use my_cpp_code.FooBar.Alternate.{alternate}
use my_cpp_code.FooBar.Monitor.{
  Loop, ready, waiting, Monitor, new_monitor, woken, foo_round, bar_round, Act, runs, wakes, act,
  run,
}

abbrev pub round_of : Loop → ℕ
round_of (ready i) = i
round_of (waiting i) = i

abbrev pub is_waiting : Loop → Bool
is_waiting (ready i) = false
is_waiting (waiting i) = true

record Inv (n : ℕ) (s : Monitor) : Type 0 where
  size : s.n ≡ n
  -- `foo` is as many rounds ahead as the counter is odd.
  lead : round_of s.foo_at ≡ round_of s.bar_at + s.cnt % 2
  count : s.cnt ≡ round_of s.foo_at + round_of s.bar_at
  within : round_of s.foo_at ≤ n
  foo_waits : is_waiting s.foo_at ≡ true → s.cnt % 2 ≡ 1
  bar_waits : is_waiting s.bar_at ≡ true → s.cnt % 2 ≡ 0
  words : s.printed ≡ alternate s.cnt

round_woken : (l : Loop) → round_of (woken l) ≡ round_of l
round_woken (ready i) = refl
round_woken (waiting i) = refl

not_waiting-woken : (l : Loop) → is_waiting (woken l) ≡ false
not_waiting-woken (ready i) = refl
not_waiting-woken (waiting i) = refl

next_word :
    (k : ℕ) (w : Word) (l : List Word)
    → (if k % 2 == 0 then foo_word else bar_word) ≡ w
    → l ≡ alternate k
    → l ++ (w ∷ []) ≡ alternate (k + 1)
next_word k w l e h =
    let next : suc k ≡ k + 1 = omega arith in
    ap₂ (λ a b. a ++ (b ∷ [])) h (sym e) ∙ ap alternate next

foo_round-Inv : (n : ℕ) (s : Monitor) (l : Loop) → s.foo_at ≡ l → Inv n s → Inv n (foo_round l s)
unfolding foo_round
foo_round-Inv n s (waiting i) e v = v
foo_round-Inv n s (ready i) e v =
    let at = ap round_of e in
    let wr = round_woken s.bar_at in
    elim (Bool-cases (ltb i s.n)) [
      | inl going ↦ elim (Bool-cases (s.cnt % 2 == 0)) [
        | inl even ↦
            rw (going, even, foo_round)
              (record {
                size = v.size;
                lead = ground (arith, v.lead, at, wr);
                count = omega (arith, v.count, at, wr);
                within = ground (arith, v.size);
                foo_waits = λ h. cc;
                bar_waits = λ h. absurd (ground (arith, not_waiting-woken s.bar_at, h));
                words = next_word s.cnt foo_word s.printed (rw even refl) v.words;
              })
        | inr odd ↦
            rw (going, odd, foo_round)
              (record {
                size = v.size;
                lead = omega (arith, v.lead, at);
                count = omega (arith, v.count, at);
                within = omega (arith, v.within, at);
                foo_waits = λ h. ground arith;
                bar_waits = v.bar_waits;
                words = v.words;
              })
      ]
      | inr over ↦ rw (over, foo_round) v
    ]

bar_round-Inv : (n : ℕ) (s : Monitor) (l : Loop) → s.bar_at ≡ l → Inv n s → Inv n (bar_round l s)
unfolding bar_round
bar_round-Inv n s (waiting i) e v = v
bar_round-Inv n s (ready i) e v =
    let at = ap round_of e in
    let wr = round_woken s.foo_at in
    elim (Bool-cases (ltb i s.n)) [
      | inl going ↦ elim (Bool-cases (s.cnt % 2 == 1)) [
        | inl odd ↦
            rw (going, odd, bar_round)
              (record {
                size = v.size;
                lead = ground (arith, v.lead, at, wr);
                count = omega (arith, v.count, at, wr);
                within = omega (arith, v.within, wr);
                foo_waits = λ h. absurd (ground (arith, not_waiting-woken s.foo_at, h));
                bar_waits = λ h. cc;
                words = next_word s.cnt bar_word s.printed (ground arith) v.words;
              })
        | inr even ↦
            rw (going, even, bar_round)
              (record {
                size = v.size;
                lead = omega (arith, v.lead, at);
                count = omega (arith, v.count, at);
                within = v.within;
                foo_waits = v.foo_waits;
                bar_waits = λ h. ground arith;
                words = v.words;
              })
      ]
      | inr over ↦ rw (over, bar_round) v
    ]

act-Inv : (n : ℕ) (a : Act) (s : Monitor) → Inv n s → Inv n (act a s)
unfolding act
act-Inv n (runs foo) s v = foo_round-Inv n s s.foo_at refl v
act-Inv n (runs bar) s v = bar_round-Inv n s s.bar_at refl v
act-Inv n (wakes foo) s v =
    let wr = round_woken s.foo_at in
    record {
      size = v.size;
      lead = wr ∙ v.lead;
      count = omega (arith, v.count, wr);
      within = omega (arith, v.within, wr);
      foo_waits = λ h. absurd (ground (arith, not_waiting-woken s.foo_at, h));
      bar_waits = v.bar_waits;
      words = v.words;
    }
act-Inv n (wakes bar) s v =
    let wr = round_woken s.bar_at in
    record {
      size = v.size;
      lead = omega (arith, v.lead, wr);
      count = omega (arith, v.count, wr);
      within = v.within;
      foo_waits = v.foo_waits;
      bar_waits = λ h. absurd (ground (arith, not_waiting-woken s.bar_at, h));
      words = v.words;
    }

run-Inv : (n : ℕ) (schedule : List Act) (s : Monitor) → Inv n s → Inv n (run schedule s)
unfolding run
run-Inv n [] s v = v
run-Inv n (a ∷ schedule) s v = run-Inv n schedule (act a s) (act-Inv n a s v)

new_monitor-Inv : (n : ℕ) → Inv n (new_monitor n)
unfolding new_monitor
new_monitor-Inv n = record {
  size = refl;
  lead = refl;
  count = refl;
  within = omega arith;
  foo_waits = λ h. cc;
  bar_waits = λ h. cc;
  words = refl;
}

-- A thread that prints in its next round.
abbrev pub Prints : ℕ → ℕ → Loop → Type 0
Prints n turn (waiting i) = ⊥
Prints n turn (ready i) = (i < n) × (turn ≡ 0)

in_turn :
    (n turn : ℕ) (l : Loop)
    → turn ≡ 0
    → (is_waiting l ≡ true → turn ≡ 1)
    → round_of l < n
    → Prints n turn l
in_turn n turn (ready i) e w h = (h, e)
in_turn n turn (waiting i) e w h = absurd (omega (arith, w refl))

-- Under every schedule, and whatever wakes the threads, the words alternate, one for each value
-- of the counter; and the thread whose turn it is is not waiting and prints in its next round,
-- unless both have printed `n` times.
pub run_monitor-alternate :
    (n : ℕ) (schedule : List Act)
    → let s = run schedule (new_monitor n) in
      (s.printed ≡ alternate s.cnt)
      × (Prints n (s.cnt % 2) s.foo_at
          ⊎ Prints n (1 - s.cnt % 2) s.bar_at
          ⊎ (s.printed ≡ alternate (n + n)))
run_monitor-alternate n schedule =
    let s = run schedule (new_monitor n) in
    let v = run-Inv n schedule (new_monitor n) (new_monitor-Inv n) in
    (
      v.words,
      elim (Bool-cases (s.cnt % 2 == 0)) [
        | inl even ↦ elim (Bool-cases (ltb (round_of s.foo_at) n)) [
          | inl going ↦
              inl (in_turn n (s.cnt % 2) s.foo_at (ground arith) v.foo_waits (ground arith))
          | inr over ↦
              let full : s.cnt ≡ n + n = ground (arith, v.lead, v.count, v.within) in
              inr (inr (v.words ∙ ap alternate full))
        ]
        | inr odd ↦ inr (
            inl (
              in_turn n (1 - s.cnt % 2) s.bar_at (ground arith) (λ h. omega (arith, v.bar_waits h))
                (ground (arith, v.lead, v.within))))
      ],
    )
