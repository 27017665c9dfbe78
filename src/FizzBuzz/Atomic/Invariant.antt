-- ===== src/FizzBuzz/Atomic/Invariant.antt =====
-- LT_1195_fizzbuzz.cpp, `FizzBuzz_`: what holds after every step.
use my_cpp_code.Common.{
  ℕ, ◌+◌, ◌-◌, ◌≤◌, ◌<◌, ◌≡◌, refl, ap, sym, ◌∙◌, arith, true, false, List, [], ◌∷◌, ◌++◌, ltb, inl,
  inr, Bool-cases, ltb→lt,
}
use my_cpp_code.FizzBuzz.{Role, fizz, buzz, fizzbuzz, number, word, takes, same_role}
use my_cpp_code.FizzBuzz.Game.{
  game, word_at, taker, takes-taker, taker_unique, word-takes, game_pos,
}
use my_cpp_code.FizzBuzz.Atomic.{
  Local, loading, printing, adding, returned, Polling, new_polling, takes_loaded, set_local,
  step_from, step, run,
}

takes_loaded-taker : (r : Role) (i : ℕ) → takes_loaded r i ≡ true → taker i ≡ r
unfolding takes_loaded takes
takes_loaded-taker fizzbuzz i h = ground arith
takes_loaded-taker fizz i h = taker_unique fizz i h
takes_loaded-taker buzz i h = taker_unique buzz i h
takes_loaded-taker number i h = taker_unique number i h

-- Only the thread whose turn it is stands in its branch, with the counter that it has loaded.
abbrev pub Holds : Polling → Role → Local → Type 0
Holds s r loading = Unit
Holds s r (printing i) = (i ≡ s.ati) × (taker s.ati ≡ r) × (s.ati ≤ s.n)
Holds s r adding = (taker s.ati ≡ r) × (s.ati ≤ s.n)
Holds s r returned = s.n < s.ati

-- How many words are out: those below the counter, and one more while a thread is about to add.
abbrev pub said_by : Local → ℕ → ℕ
said_by adding i = i
said_by _ i = i - 1

pub record Inv (n : ℕ) (s : Polling) : Type 0 where
  pub size : s.n ≡ n
  pub started : 0 < s.ati
  pub within : s.ati ≤ n + 1
  pub holds : (r : Role) → Holds s r (s.local r)
  pub said : s.printed ≡ game (said_by (s.local (taker s.ati)) s.ati)

pub same_role_refl : (r : Role) → same_role r r ≡ true
unfolding same_role
same_role_refl fizz = refl
same_role_refl _ = refl

pub same_role→eq : (q r : Role) → same_role q r ≡ true → q ≡ r
unfolding same_role
same_role→eq fizz fizz h = refl
same_role→eq buzz buzz h = refl
same_role→eq fizzbuzz fizzbuzz h = refl
same_role→eq number number h = refl
same_role→eq _ _ h = cc

Holds-set :
    (s : Polling) (r : Role) (v : Local) (local : Role → Local)
    → Holds s r v
    → ((q : Role) → Holds s q (local q))
    → (q : Role) → Holds s q (set_local r v local q)
unfolding same_role
Holds-set s fizz v local f h fizz = f
Holds-set s buzz v local f h buzz = f
Holds-set s fizzbuzz v local f h fizzbuzz = f
Holds-set s number v local f h number = f
Holds-set s r v local f h q = h q

set_local_self : (r : Role) (v : Local) (local : Role → Local) → set_local r v local r ≡ v
set_local_self r v local = rw (same_role_refl r) refl

said_by-set :
    (r q : Role) (v : Local) (local : Role → Local) (i : ℕ)
    → said_by v i ≡ said_by (local r) i
    → said_by (set_local r v local q) i ≡ said_by (local q) i
said_by-set r q v local i h = elim (Bool-cases (same_role q r)) [
  | inl same ↦ rw same (h ∙ ap (λ p. said_by (local p) i) (sym (same_role→eq q r same)))
  | inr other ↦ rw other refl
]

loading-Inv :
    (n : ℕ) (s : Polling) (r : Role) → s.local r ≡ loading → Inv n s → Inv n (step_from loading r s)
unfolding step_from
loading-Inv n s r e v = elim (Bool-cases (ltb s.n s.ati)) [
  | inl over ↦
      rw (over, step_from)
        (record {
          size = v.size;
          started = v.started;
          within = v.within;
          holds = Holds-set s r returned s.local (ltb→lt s.n s.ati over) v.holds;
          said =
              v.said
              ∙ ap game (sym (said_by-set r (taker s.ati) returned s.local s.ati (rw e refl)));
        })
  | inr going ↦ elim (Bool-cases (takes_loaded r s.ati)) [
    | inl mine ↦
        rw (going, mine, step_from)
          (record {
            size = v.size;
            started = v.started;
            within = v.within;
            holds =
                Holds-set s r (printing s.ati) s.local
                  (refl, takes_loaded-taker r s.ati mine, ground arith) v.holds;
            said =
                v.said
                ∙ ap game
                    (sym (said_by-set r (taker s.ati) (printing s.ati) s.local s.ati (rw e refl)));
          })
    | inr other ↦ rw (going, other, step_from) v
  ]
]

-- The words when the thread in turn prints.
printing_said :
    (s : Polling) (r : Role) (i : ℕ)
    → 0 < s.ati
    → i ≡ s.ati
    → taker s.ati ≡ r
    → s.printed ≡ game (s.ati - 1)
    → s.printed ++ (word r i ∷ []) ≡ game s.ati
printing_said s r i pos loaded mine said =
    let named : word r i ≡ word_at s.ati =
      rw loaded (word-takes r s.ati (ap (λ q. takes q s.ati) (sym mine) ∙ takes-taker s.ati)) in
    let back : s.ati + 1 - 1 ≡ s.ati = omega arith in
    ap (λ w. s.printed ++ (w ∷ [])) named
    ∙ ap (λ ws. ws ++ (word_at s.ati ∷ [])) said
    ∙ game_pos s.ati pos
    ∙ ap game back

printing-Inv :
    (n : ℕ) (s : Polling) (r : Role) (i : ℕ)
    → s.local r ≡ printing i
    → Holds s r (printing i)
    → Inv n s
    → Inv n (step_from (printing i) r s)
unfolding step_from
printing-Inv n s r i e (loaded, mine, le) v = record {
  size = v.size;
  started = v.started;
  within = v.within;
  holds = Holds-set s r adding s.local (mine, le) v.holds;
  said =
      printing_said s r i v.started loaded mine (
        v.said
        ∙ ap (λ q. game (said_by (s.local q) s.ati)) mine
        ∙ ap (λ l. game (said_by l s.ati)) e)
      ∙ sym (
          ap (λ q. game (said_by (set_local r adding s.local q) s.ati)) mine
          ∙ ap (λ l. game (said_by l s.ati)) (set_local_self r adding s.local));
}

-- When the thread in turn adds, every other is about to load.
quiet :
    (s : Polling) (r q : Role) (v : Local)
    → taker s.ati ≡ r
    → s.ati ≤ s.n
    → same_role q r ≡ false
    → Holds s q v
    → v ≡ loading
quiet s r q loading mine le other h = refl
quiet s r q (printing i) mine le other h = absurd (ground (arith, same_role_refl q, h.1, mine))
quiet s r q adding mine le other h = absurd (ground (arith, same_role_refl q, h.0, mine))
quiet s r q returned mine le other h = absurd (omega arith)

all_quiet :
    (s : Polling) (r q : Role)
    → taker s.ati ≡ r
    → s.ati ≤ s.n
    → Holds s q (s.local q)
    → set_local r loading s.local q ≡ loading
all_quiet s r q mine le h = elim (Bool-cases (same_role q r)) [
  | inl same ↦ rw same refl
  | inr other ↦ rw other (quiet s r q (s.local q) mine le other h)
]

adding-Inv :
    (n : ℕ) (s : Polling) (r : Role)
    → s.local r ≡ adding
    → Holds s r adding
    → Inv n s
    → Inv n (step_from adding r s)
unfolding step_from
adding-Inv n s r e (mine, le) v =
    let idle = λ (q : Role). all_quiet s r q mine le (v.holds q) in
    let forth : s.ati ≡ s.ati + 1 - 1 = omega arith in
    record {
      size = v.size;
      started = omega arith;
      within = omega (arith, v.size);
      holds = λ q. rw (idle q) tt;
      said =
          v.said
          ∙ ap (λ q. game (said_by (s.local q) s.ati)) mine
          ∙ ap (λ l. game (said_by l s.ati)) e
          ∙ ap game forth
          ∙ sym (ap (λ l. game (said_by l (s.ati + 1))) (idle (taker (s.ati + 1))));
    }

step-Inv : (n : ℕ) (s : Polling) (r : Role) → Inv n s → Inv n (step r s)
unfolding step
step-Inv n s r v = at (s.local r) refl (v.holds r)
  where
    at : (l : Local) → s.local r ≡ l → Holds s r l → Inv n (step_from l r s)
    at loading e h = loading-Inv n s r e v
    at (printing i) e h = printing-Inv n s r i e h v
    at adding e h = adding-Inv n s r e h v
    at returned e h = unfold step_from in v

pub run-Inv : (n : ℕ) (rs : List Role) (s : Polling) → Inv n s → Inv n (run rs s)
unfolding run
run-Inv n [] s v = v
run-Inv n (r ∷ rs) s v = run-Inv n rs (step r s) (step-Inv n s r v)

pub new_polling-Inv : (n : ℕ) → Inv n (new_polling n)
unfolding new_polling
new_polling-Inv n = record {
  size = refl;
  started = omega arith;
  within = omega arith;
  holds = λ r. tt;
  said = refl;
}
