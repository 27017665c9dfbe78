-- ===== src/Tomato/Ranges.antt =====
-- waybar_tomato_clock.m.cpp: the counters and the minutes shown stay in their ranges.
use my_cpp_code.Common.{
  ℕ, ◌+◌, ◌-◌, ◌≤◌, ◌<◌, arith, Bool, true, false, List, [], ◌∷◌, ◌++◌, leb, ◌==◌, if◌then◌else◌,
  All, All-append, Bytes, inl, inr, Bool-cases,
}
use my_cpp_code.Tomato.{
  work_down_count, rest_down_count, left_click, right_click, read_action_non_block, Shown,
  shown_work, shown_rest, shown_manual, Clock, new_clock, click, work_round, rest_round, show,
  count, round, run,
}

-- The counter of the current phase is at least 1 and at most its start, or `extra` more.
abbrev pub InRange : ℕ → Clock → Type 0
InRange extra c =
    if c.is_work
    then (0 < c.worked_cnt) × (c.worked_cnt ≤ work_down_count + extra)
    else (0 < c.rested_cnt) × (c.rested_cnt ≤ rest_down_count + extra)

abbrev pub Sane : Shown → Type 0
Sane (shown_work minutes) = minutes ≤ 25
Sane (shown_rest minutes) = minutes ≤ 5
Sane shown_manual = Unit

click-InRange : (action : ℕ) (c : Clock) → InRange 0 c → InRange 1 (click action c)
unfolding click
click-InRange action c h = elim (Bool-cases (action == left_click)) [
  | inl left ↦ rw (left, click) (omega arith)
  | inr other ↦ elim (Bool-cases (action == right_click)) [
    | inl right ↦ rw (other, right, click) (omega arith)
    | inr none_of_them ↦ rw (other, none_of_them, click) (wider c.is_work h)
  ]
]
  where
    wider :
        (w : Bool)
        → (if w
            then (0 < c.worked_cnt) × (c.worked_cnt ≤ work_down_count + 0)
            else (0 < c.rested_cnt) × (c.rested_cnt ≤ rest_down_count + 0))
        → (if w
            then (0 < c.worked_cnt) × (c.worked_cnt ≤ work_down_count + 1)
            else (0 < c.rested_cnt) × (c.rested_cnt ≤ rest_down_count + 1))
    wider true h = omega (arith, h.0, h.1)
    wider false h = omega (arith, h.0, h.1)

count-InRange :
    (blocking : ℕ) (c : Clock)
    → InRange 1 c
    → InRange 0 (count blocking c).1 × All Sane (count blocking c).0
unfolding count work_round rest_round
count-InRange blocking c h = elim (Bool-cases c.is_work) [
  | inl working ↦
      let b = rw working at h in
      elim (Bool-cases (leb (c.worked_cnt - 1) 0)) [
        | inl over ↦ rw (working, over, work_round) (omega arith, tt)
        | inr going ↦ rw (working, going, work_round) (ground (arith, b.0, b.1), tt)
      ]
  | inr resting ↦
      let b = rw resting at h in
      elim (Bool-cases (leb (c.rested_cnt - 1) 0)) [
        | inl over ↦ elim (Bool-cases (blocking == left_click)) [
          | inl left ↦ rw (resting, over, left, rest_round) (omega arith, (tt, tt))
          | inr other ↦ rw (resting, over, other, rest_round) (omega arith, (tt, tt))
        ]
        | inr going ↦ rw (resting, going, rest_round) (ground (arith, b.0, b.1), tt)
      ]
]

show-Sane : (c : Clock) → InRange 0 c → Sane (show c)
unfolding show
show-Sane c h = elim (Bool-cases c.is_work) [
  | inl working ↦ rw working (let b = rw working at h in omega (arith, b.1))
  | inr resting ↦ rw resting (let b = rw resting at h in omega (arith, b.1))
]

run-InRange_from :
    (inputs : List (Bytes × ℕ)) (c : Clock)
    → InRange 0 c
    → InRange 0 (run inputs c).1 × All Sane (run inputs c).0
unfolding run round
run-InRange_from [] c h = (h, tt)
run-InRange_from ((waiting, blocking) ∷ inputs) c h =
    let c₁ = click (read_action_non_block waiting) c in
    let (ok, sane) =
      count-InRange blocking c₁ (click-InRange (read_action_non_block waiting) c h) in
    let (asked, c₂) = count blocking c₁ in
    let (ok', sane') = run-InRange_from inputs c₂ ok in
    (
      ok',
      All-append Sane (asked ++ (show c₂ ∷ [])) (run inputs c₂).0
          (All-append Sane asked (show c₂ ∷ []) sane (show-Sane c₂ ok, tt)) sane',
    )

-- Whatever is clicked, and whenever: before each round the counter of the phase is between 1 and
-- 150 while working and between 1 and 30 while resting, so that it never passes below 0; and no
-- more than 25 minutes of work or 5 of rest are ever shown.
pub run-InRange :
    (inputs : List (Bytes × ℕ))
    → let (shown, c) = run inputs new_clock in InRange 0 c × All Sane shown
unfolding new_clock
run-InRange inputs = run-InRange_from inputs new_clock (omega arith)
