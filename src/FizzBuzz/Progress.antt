-- ===== src/FizzBuzz/Progress.antt =====
-- LT_1195_fizzbuzz.cpp, `FizzBuzz`: what is printed, and that no thread is left waiting.
use my_cpp_code.Common.{
  ℕ, ◌+◌, ◌-◌, ◌≤◌, ◌<◌, ◌≡◌, ◌≢◌, refl, ap, ◌∙◌, arith, true, false, [], ◌∷◌, ◌++◌, Option, none,
  some, ltb, inl, inr, ◌⊎◌, Bool-cases, ltb→lt,
}
use my_cpp_code.FizzBuzz.{
  Role, fizz, buzz, fizzbuzz, number, takes, word, Status, ready, waiting, returned, FizzBuzz,
  new_fizzbuzz, same_role, set_status, woken, turn,
}
use my_cpp_code.FizzBuzz.Game.{word_at, game, taker, takes-taker, word-takes, game_pos}

-- A ready thread runs; the others may also be woken for no reason.
pub data Step (s : FizzBuzz) : FizzBuzz → Type 0 where
  runs : (r : Role) (wake : Option Role) → s.status r ≡ ready → Step s (turn r wake s)
  spurious : (r : Role) → Step s (record s { status = set_status r (woken (s.status r)) s.status })

pub data Reach (s : FizzBuzz) : FizzBuzz → Type 0 where
  here : Reach s s
  next : {t u : FizzBuzz} → Reach s t → Step t u → Reach s u

-- A thread waits only while its predicate is false, and returns only at the end.
abbrev Fair : FizzBuzz → Role → Status → Type 0
Fair s r ready = Unit
Fair s r waiting = (s.idx ≤ s.n) × (takes r s.idx ≡ false)
Fair s r returned = s.n < s.idx

record Inv (n : ℕ) (s : FizzBuzz) : Type 0 where
  size : s.n ≡ n
  started : 0 < s.idx
  within : s.idx ≤ n + 1
  said : s.printed ≡ game (s.idx - 1)
  fair : (r : Role) → Fair s r (s.status r)

Fair-woken : (s : FizzBuzz) (r : Role) (v : Status) → Fair s r v → Fair s r (woken v)
Fair-woken s r ready f = tt
Fair-woken s r waiting f = tt
Fair-woken s r returned f = f

Fair-set :
    (s : FizzBuzz) (r : Role) (v : Status) (status : Role → Status)
    → Fair s r v
    → ((q : Role) → Fair s q (status q))
    → (q : Role) → Fair s q (set_status r v status q)
unfolding same_role
Fair-set s fizz v status f h fizz = f
Fair-set s buzz v status f h buzz = f
Fair-set s fizzbuzz v status f h fizzbuzz = f
Fair-set s number v status f h number = f
Fair-set s r v status f h q = h q

new_fizzbuzz-Inv : (n : ℕ) → Inv n (new_fizzbuzz n)
unfolding new_fizzbuzz
new_fizzbuzz-Inv n = record {
  size = refl;
  started = omega arith;
  within = omega arith;
  said = refl;
  fair = λ r. tt;
}

-- After a thread has printed, the counter has moved on and nobody waits.
Fair-next : (s t : FizzBuzz) (r : Role) (v : Status) → s.idx ≤ s.n → Fair s r v → Fair t r (woken v)
Fair-next s t r ready le f = tt
Fair-next s t r waiting le f = tt
Fair-next s t r returned le f = absurd (omega arith)

Fair-notified :
    (s : FizzBuzz) (wake : Option Role)
    → ((q : Role) → Fair s q (s.status q))
    → (q : Role)
    → Fair s q (
        (elim wake as (λ x. Role → Status) [
          | none ↦ s.status
          | some w ↦ set_status w (woken (s.status w)) s.status
        ])
          q)
Fair-notified s none h q = h q
Fair-notified s (some w) h q =
    Fair-set s w (woken (s.status w)) s.status (Fair-woken s w (s.status w) (h w)) h q

said_next :
    (s : FizzBuzz) (r : Role)
    → 0 < s.idx
    → s.printed ≡ game (s.idx - 1)
    → takes r s.idx ≡ true
    → s.printed ++ (word r s.idx ∷ []) ≡ game (s.idx + 1 - 1)
said_next s r pos said mine =
    ap (λ w. s.printed ++ (w ∷ [])) (word-takes r s.idx mine)
    ∙ ap (λ ws. ws ++ (word_at s.idx ∷ [])) said
    ∙ game_pos s.idx pos

turn-Inv : (n : ℕ) (s : FizzBuzz) (r : Role) (wake : Option Role) → Inv n s → Inv n (turn r wake s)
unfolding turn
turn-Inv n s r wake v = elim (Bool-cases (ltb s.n s.idx)) [
  | inl over ↦
      rw (over, turn)
        (record {
          size = v.size;
          started = v.started;
          within = v.within;
          said = v.said;
          fair = Fair-set s r returned _ (ltb→lt s.n s.idx over) (Fair-notified s wake v.fair);
        })
  | inr going ↦
      let le : s.idx ≤ s.n = ground arith in
      elim (Bool-cases (takes r s.idx)) [
        | inl mine ↦
            let t : FizzBuzz = record s {
              idx = s.idx + 1;
              status = λ q. woken (s.status q);
              printed = s.printed ++ (word r s.idx ∷ []);
            } in
            rw (going, mine, turn)
              (record {
                size = v.size;
                started = omega arith;
                within = omega (arith, v.size);
                said = said_next s r v.started v.said mine;
                fair = λ q. Fair-next s t q (s.status q) le (v.fair q);
              })
        | inr other ↦
            rw (going, other, turn)
              (record {
                size = v.size;
                started = v.started;
                within = v.within;
                said = v.said;
                fair = Fair-set s r waiting s.status (le, other) v.fair;
              })
      ]
]

Reach-Inv : (n : ℕ) {s : FizzBuzz} → Reach (new_fizzbuzz n) s → Inv n s
Reach-Inv n here = new_fizzbuzz-Inv n
Reach-Inv n (next r (runs q wake e)) = turn-Inv n _ q wake (Reach-Inv n r)
Reach-Inv n (next {t} r (spurious q)) =
    let v = Reach-Inv n r in
    record {
      size = v.size;
      started = v.started;
      within = v.within;
      said = v.said;
      fair =
          Fair-set t q (woken (t.status q)) t.status (Fair-woken t q (t.status q) (v.fair q))
            v.fair;
    }

-- In every schedule, and whatever wakes the waiting threads, the output is the game played in
-- order up to the counter, which does not pass `n` by more than one; and once any thread has
-- returned it is the whole game.
pub Reach-printed :
    (n : ℕ) {s : FizzBuzz}
    → Reach (new_fizzbuzz n) s
    → (s.printed ≡ game (s.idx - 1))
      × (s.idx ≤ n + 1)
      × ((r : Role) → s.status r ≡ returned → s.printed ≡ game n)
Reach-printed n {s} reach =
    let v = Reach-Inv n reach in
    (v.said, v.within, λ r e. v.said ∙ ap game (over r (s.status r) (v.fair r) e v.size v.within))
  where
    over :
        (r : Role) (v : Status)
        → Fair s r v
        → v ≡ returned
        → s.n ≡ n
        → s.idx ≤ n + 1
        → s.idx - 1 ≡ n
    over r ready f e size le = cc
    over r waiting f e size le = cc
    over r returned f e size le = omega arith

-- What a ready thread does: it prints, or it returns.
abbrev pub Acts : FizzBuzz → Role → Type 0
Acts s r = (s.status r ≡ ready) × ((s.n < s.idx) ⊎ (takes r s.idx ≡ true))

Fair-ready :
    (s : FizzBuzz) (r : Role) (v : Status)
    → Fair s r v
    → v ≢ returned
    → (s.n < s.idx) ⊎ (takes r s.idx ≡ true)
    → v ≡ ready
Fair-ready s r ready f ne h = refl
Fair-ready s r waiting f ne h = absurd (ground (arith, f.0, f.1))
Fair-ready s r returned f ne h = absurd (ne refl)

-- There is no deadlock and no lost wakeup: in every reachable state, while a thread has not
-- returned, some thread that is not waiting prints or returns in its next step.
pub Reach-progress :
    (n : ℕ) {s : FizzBuzz}
    → Reach (new_fizzbuzz n) s
    → (r : Role) → s.status r ≢ returned
    → (q : Role) × Acts s q
Reach-progress n {s} reach r ne =
    let v = Reach-Inv n reach in
    elim (Bool-cases (ltb s.n s.idx)) [
      | inl over ↦
          let h : (s.n < s.idx) ⊎ (takes r s.idx ≡ true) = inl (ltb→lt s.n s.idx over) in
          (r, (Fair-ready s r (s.status r) (v.fair r) ne h, h))
      | inr going ↦
          let q = taker s.idx in
          let h : (s.n < s.idx) ⊎ (takes q s.idx ≡ true) = inr (takes-taker s.idx) in
          (
            q,
            (Fair-ready s q (s.status q) (v.fair q) (playing q (s.status q) (v.fair q) going) h, h),
          )
    ]
  where
    playing : (q : Role) (v : Status) → Fair s q v → ltb s.n s.idx ≡ false → v ≢ returned
    playing q ready f going = λ e. cc
    playing q waiting f going = λ e. cc
    playing q returned f going = λ e. ground arith
