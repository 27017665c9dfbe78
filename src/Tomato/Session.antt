-- ===== src/Tomato/Session.antt =====
-- waybar_tomato_clock.m.cpp: how a session without clicks goes.
use my_cpp_code.Common.{
  ℕ, zero, suc, ◌+◌, ◌-◌, ◌*◌, ◌/◌, ◌<◌, ◌≡◌, refl, ap, sym, ◌∙◌, arith, true, false, List, [], ◌∷◌,
  ◌++◌, leb, ◌==◌, if◌then◌else◌, replicate, append_assoc, Bytes, inl, inr, Bool-cases,
}
use my_cpp_code.Tomato.{
  left_click, latest_action, read_action_non_block, Shown, shown_work, shown_rest, shown_manual,
  Clock, new_clock, click, work_round, rest_round, show, count, round, run,
}

-- How often a click is asked for.
abbrev pub asks : List Shown → ℕ
asks [] = 0
asks (shown_manual ∷ l) = suc (asks l)
asks (shown_work m ∷ l) = asks l
asks (shown_rest m ∷ l) = asks l

pub asks-append : (l m : List Shown) → asks (l ++ m) ≡ asks l + asks m
asks-append [] m = omega arith
asks-append (shown_manual ∷ l) m = omega (arith, asks-append l m)
asks-append (shown_work k ∷ l) m = asks-append l m
asks-append (shown_rest k ∷ l) m = asks-append l m

-- Where some rounds lead, and how often they ask.
abbrev pub Goes : List (Bytes × ℕ) → Clock → ℕ → Clock → Type 0
Goes inputs c asked d = ((run inputs c).1 ≡ d) × (asks (run inputs c).0 ≡ asked)

run-append :
    (first second : List (Bytes × ℕ)) (c : Clock)
    → run (first ++ second) c
      ≡ ((run first c).0 ++ (run second (run first c).1).0, (run second (run first c).1).1)
unfolding run
run-append [] second c = refl
run-append ((waiting, blocking) ∷ first) second c =
    let r = round waiting blocking c in
    let ih = run-append first second r.1 in
    ap (λ p. (r.0 ++ p.0, p.1)) ih
    ∙ ap (λ l. (l, (run second (run first r.1).1).1))
        (sym (append_assoc r.0 (run first r.1).0 (run second (run first r.1).1).0))

Goes-append :
    (first second : List (Bytes × ℕ)) (c d e : Clock) (m n : ℕ)
    → Goes first c m d
    → Goes second d n e
    → Goes (first ++ second) c (m + n) e
Goes-append first second c d e m n (to_d, asked) (to_e, more) =
    let both = run-append first second c in
    let last = ap (λ x. run second x) to_d in
    (
      ap (λ (p : List Shown × Clock). p.1) both ∙ ap (λ (p : List Shown × Clock). p.1) last ∙ to_e,
      omega (
        arith,
        ap (λ (p : List Shown × Clock). asks p.0) both,
        asks-append (run first c).0 (run second (run first c).1).0,
        ap (λ (p : List Shown × Clock). asks p.0) last,
        asked,
        more,
      ),
    )

Goes-round :
    (blocking asked : ℕ) (c d : Clock) (shown : List Shown)
    → round [] blocking c ≡ (shown, d)
    → asks shown ≡ asked
    → Goes (([], blocking) ∷ []) c asked d
unfolding run
Goes-round blocking asked c d shown e h = (
  ap (λ (p : List Shown × Clock). p.1) e,
  omega (
    arith,
    asks-append (round [] blocking c).0 [],
    ap (λ (p : List Shown × Clock). asks p.0) e,
    h,
  ),
)

-- Rounds in which nothing is clicked.
abbrev pub idle : ℕ → ℕ → List (Bytes × ℕ)
idle rounds blocking = replicate rounds ([], blocking)

abbrev pub working : ℕ → ℕ → Clock
working w r = record { is_work = true; worked_cnt = w; rested_cnt = r }

abbrev pub resting : ℕ → ℕ → Clock
resting w r = record { is_work = false; worked_cnt = w; rested_cnt = r }

-- A round without clicks.
round_work :
    (w r blocking : ℕ)
    → 1 < w
    → round [] blocking (working w r) ≡ (shown_work ((w - 1) * 10 / 60) ∷ [], working (w - 1) r)
unfolding round click count work_round show read_action_non_block latest_action
round_work w r blocking h =
    let going : leb (w - 1) 0 ≡ false = ground arith in rw (going, work_round) refl

round_rest :
    (w r blocking : ℕ)
    → 1 < r
    → round [] blocking (resting w r) ≡ (shown_rest ((r - 1) * 10 / 60) ∷ [], resting w (r - 1))
unfolding round click count rest_round show read_action_non_block latest_action
round_rest w r blocking h =
    let going : leb (r - 1) 0 ≡ false = ground arith in rw (going, rest_round) refl

idle_work :
    (k w r blocking : ℕ) → k < w → Goes (idle k blocking) (working w r) 0 (working (w - k) r)
idle_work zero w r blocking h = unfold run in (ap (λ v. working v r) (omega arith), refl)
idle_work (suc k) w r blocking h =
    let shown = shown_work ((w - 1) * 10 / 60) ∷ [] in
    let first =
      Goes-round blocking 0 (working w r) (working (w - 1) r) shown
        (round_work w r blocking (omega arith)) refl in
    let rest = idle_work k (w - 1) r blocking (omega arith) in
    let less : w - 1 - k ≡ w - suc k = omega arith in
    rw less at (
      Goes-append (([], blocking) ∷ []) (idle k blocking) (working w r) (working (w - 1) r)
        (working (w - 1 - k) r) 0 0 first rest)

idle_rest :
    (k w r blocking : ℕ) → k < r → Goes (idle k blocking) (resting w r) 0 (resting w (r - k))
idle_rest zero w r blocking h = unfold run in (ap (resting w) (omega arith), refl)
idle_rest (suc k) w r blocking h =
    let shown = shown_rest ((r - 1) * 10 / 60) ∷ [] in
    let first =
      Goes-round blocking 0 (resting w r) (resting w (r - 1)) shown
        (round_rest w r blocking (omega arith)) refl in
    let rest = idle_rest k w (r - 1) blocking (omega arith) in
    let less : r - 1 - k ≡ r - suc k = omega arith in
    rw less at (
      Goes-append (([], blocking) ∷ []) (idle k blocking) (resting w r) (resting w (r - 1))
        (resting w (r - 1 - k)) 0 0 first rest)

last_of_work : (r blocking : ℕ) → Goes (idle 1 blocking) (working 1 r) 0 (resting 0 30)
unfolding run round click count work_round show read_action_non_block latest_action
last_of_work r blocking = (refl, refl)

-- What follows a rest: work after a left click, and else another rest.
abbrev pub after_rest : ℕ → Clock
after_rest blocking = if blocking == left_click then working 150 0 else resting 0 30

last_of_rest : (blocking : ℕ) → Goes (idle 1 blocking) (resting 0 1) 1 (after_rest blocking)
unfolding run round click count rest_round show read_action_non_block latest_action
last_of_rest blocking = elim (Bool-cases (blocking == left_click)) [
  | inl left ↦ rw left (refl, refl)
  | inr other ↦ rw other (refl, refl)
]

-- The rounds of a session: 150 of work and 30 of rest.
abbrev pub session : ℕ → List (Bytes × ℕ)
session blocking = idle 149 blocking ++ (idle 1 blocking ++ (idle 29 blocking ++ idle 1 blocking))

-- A session without clicks on the status bar, 150 rounds of work and 30 of rest, asks for a
-- click once; then, if the byte read is a left click, the clock works again with 150 rounds to
-- go, and else it rests again with 30.
pub run-session : (blocking : ℕ) → Goes (session blocking) new_clock 1 (after_rest blocking)
unfolding new_clock
run-session b =
    let start = working 150 30 in
    let rest =
      Goes-append (idle 29 b) (idle 1 b) (resting 0 30) (resting 0 1) (after_rest b) 0 1
        (idle_rest 29 0 30 b (omega arith)) (last_of_rest b) in
    let late =
      Goes-append (idle 1 b) (idle 29 b ++ idle 1 b) (working 1 30) (resting 0 30) (after_rest b) 0
        1 (last_of_work 30 b) rest in
    Goes-append (idle 149 b) (idle 1 b ++ (idle 29 b ++ idle 1 b)) start (working 1 30)
      (after_rest b) 0 1 (idle_work 149 150 30 b (omega arith)) late
