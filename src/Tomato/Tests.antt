-- ===== src/Tomato/Tests.antt =====
-- waybar_tomato_clock.m.cpp: clicks and sessions.
use my_cpp_code.Common.{ℕ, ◌≡◌, refl, List, [], ◌∷◌, All, Bytes}
use my_cpp_code.Tomato.{
  left_click, right_click, latest_action, read_action_non_block, new_clock, run,
}
use my_cpp_code.Tomato.Ranges.{InRange, Sane, run-InRange}

-- The last click counts, and line ends are passed over.
last_click : read_action_non_block (left_click ∷ right_click ∷ 10 ∷ []) ≡ right_click
unfolding read_action_non_block latest_action
last_click = refl

abbrev clicks : List (Bytes × ℕ)
clicks = ([], 0) ∷ (right_click ∷ [], 0) ∷ (left_click ∷ 10 ∷ [], 0) ∷ []

run-InRange_example : InRange 0 (run clicks new_clock).1 × All Sane (run clicks new_clock).0
run-InRange_example = run-InRange clicks
