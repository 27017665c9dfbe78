-- ===== src/Tomato.antt =====
-- waybar_tomato_clock/waybar_tomato_clock.m.cpp and common.h: the clock that the status bar runs.
--
-- A round of the main loop takes the bytes that wait in the FIFO, and the byte that a blocking read
-- would deliver. `worked_cnt` and `rested_cnt` are not below 1 when they are decremented.
pub mod Ranges
pub mod Session
mod Tests
use my_cpp_code.Common.{
  ℕ, zero, suc, ◌+◌, ◌-◌, ◌*◌, ◌/◌, Bool, true, false, ◌&&◌, List, [], ◌∷◌, ◌++◌, ltb, leb, ◌==◌,
  if◌then◌else◌, Bytes,
}

abbrev pub work_down_count : ℕ
work_down_count = 25 * 60 / 10

abbrev pub rest_down_count : ℕ
rest_down_count = 5 * 60 / 10

abbrev pub left_click : ℕ
left_click = b'L'

abbrev pub right_click : ℕ
right_click = b'R'

abbrev pub non_click : ℕ
non_click = b'_'

-- The loop of `read_action_non_block`, over the bytes that wait; a `char` from 128 on is negative.
unfoldable pub latest_action : ℕ → Bytes → ℕ
latest_action ch [] = ch
latest_action ch (tmp ∷ rest) = latest_action (if leb b' ' tmp && ltb tmp 128 then tmp else ch) rest

unfoldable pub read_action_non_block : Bytes → ℕ
unfolding latest_action
read_action_non_block waiting = latest_action non_click waiting

-- What is shown: minutes of work or rest, or that a click is waited for.
pub data Shown : Type 0 where
  shown_work shown_rest : ℕ → Shown
  shown_manual : Shown

pub record Clock : Type 0 where
  pub is_work : Bool
  pub worked_cnt : ℕ
  pub rested_cnt : ℕ

unfoldable pub new_clock : Clock
new_clock = record { is_work = true; worked_cnt = work_down_count; rested_cnt = rest_down_count }

unfoldable pub click : ℕ → Clock → Clock
click action c =
    if action == left_click
    then record c { is_work = true; worked_cnt = work_down_count + 1 }
    else if action == right_click
    then record c { is_work = false; rested_cnt = rest_down_count + 1 }
    else c

unfoldable pub work_round : Clock → Clock
work_round c =
    let left = c.worked_cnt - 1 in
    if leb left 0
    then record { is_work = false; worked_cnt = left; rested_cnt = rest_down_count }
    else record c { worked_cnt = left }

-- After a rest the clock waits for a click.
unfoldable pub rest_round : ℕ → Clock → List Shown × Clock
rest_round blocking c =
    let left = c.rested_cnt - 1 in
    if leb left 0
    then (
      shown_manual ∷ [],
      if blocking == left_click
          then record { is_work = true; worked_cnt = work_down_count; rested_cnt = left }
          else record c { is_work = false; rested_cnt = rest_down_count },
    )
    else ([], record c { rested_cnt = left })

unfoldable pub show : Clock → Shown
show c =
    if c.is_work then shown_work (c.worked_cnt * 10 / 60) else shown_rest (c.rested_cnt * 10 / 60)

-- The counting of a round, after the click.
unfoldable pub count : ℕ → Clock → List Shown × Clock
unfolding work_round rest_round
count blocking c = if c.is_work then ([], work_round c) else rest_round blocking c

unfoldable pub round : Bytes → ℕ → Clock → List Shown × Clock
unfolding read_action_non_block click count show
round waiting blocking c =
    let (asked, c') = count blocking (click (read_action_non_block waiting) c) in
    (asked ++ (show c' ∷ []), c')

-- The main loop, for the rounds whose inputs are listed.
unfoldable pub run : List (Bytes × ℕ) → Clock → List Shown × Clock
unfolding round
run [] c = ([], c)
run ((waiting, blocking) ∷ inputs) c =
    let (now, c') = round waiting blocking c in
    let (later, c'') = run inputs c' in (now ++ later, c'')
