-- ===== src/Tests/Watching.antt =====
-- The frame history at concrete frames of two cameras.
use kaivuriprokkis.Prelude.{ℕ, ◌≡◌, refl, false, some, List, [], ◌∷◌, replicate}
use kaivuriprokkis.Prelude.Int.{pos, ◌-ℤ◌}
use kaivuriprokkis.Policy.History.{
  Frame, FrameHistory, select, current_of, is_stale, match_frame, slot_of, select_slots, is_skewed,
  latest_of, earliest_of,
}
use kaivuriprokkis.Prelude.Int.{◌*ℤ◌, ◌+ℤ◌}
use kaivuriprokkis.Float.Fixed.{fixed_float}
use kaivuriprokkis.Tests.Fixtures.{whole}
use kaivuriprokkis.Policy.History.Make.{
  make_history, offsets_of, insert_desc, all_within, push_all, IsDescending,
  make_history-IsWithinBudget,
}
use kaivuriprokkis.Policy.History.Budget.{IsWithinBudget}
use kaivuriprokkis.Policy.History.Select.{AreSlots, select-AreSlots}

abbrev frame_at : ℕ → ℕ → Frame
frame_at number time = record {
  width = pos 2;
  height = pos 2;
  stride = pos 2;
  pixel_bytes = pos 4;
  ir_index = pos 1;
  valid_metadata = 3;
  sequence = pos number;
  timestamp = pos time;
  pixels = replicate 4 0;
}

abbrev left : List Frame
left = frame_at 1 100 ∷ frame_at 2 200 ∷ frame_at 3 300 ∷ []

abbrev right : List Frame
right = frame_at 1 110 ∷ frame_at 2 205 ∷ frame_at 3 305 ∷ []

-- The offsets 100 and 0, with a tolerance of 20; the budget is full.
abbrev history : FrameHistory
history = record {
  offsets = pos 100 ∷ pos 0 ∷ [];
  tolerance = pos 20;
  retention = pos 500;
  frames = left ∷ right ∷ [];
  max_bytes = 24;
  bytes = 24;
  evictions = 0;
}

abbrev found : List (List Frame)
found = (frame_at 2 200 ∷ frame_at 2 205 ∷ []) ∷ (frame_at 3 300 ∷ frame_at 3 305 ∷ []) ∷ []

select-AreSlots_example :
    (ls : List Frame) × (current_of history.frames ≡ some ls)
    × (is_stale (pos 310) (pos 50) ls ≡ false)
    × AreSlots history.tolerance history.offsets history.frames ls found
unfolding select select_slots slot_of match_frame is_skewed latest_of earliest_of is_stale
    current_of ◌-ℤ◌
select-AreSlots_example = select-AreSlots (pos 310) (pos 50) (pos 10) history found refl

abbrev made : FrameHistory
made = record {
  offsets = pos 1_000_000_000 ∷ pos 0 ∷ [];
  tolerance = pos 60_000_000;
  retention = pos 1_560_000_000;
  frames = [] ∷ [] ∷ [];
  max_bytes = 10;
  bytes = 0;
  evictions = 0;
}

-- Three frames of four bytes, under a budget of ten.
abbrev pushes : List (ℕ × Frame)
pushes = (0, frame_at 1 100) ∷ (1, frame_at 1 110) ∷ (0, frame_at 2 200) ∷ []

make_history-IsWithinBudget_example :
    IsDescending made.offsets × IsWithinBudget (push_all pushes made)
unfolding make_history offsets_of insert_desc all_within ◌*ℤ◌ ◌+ℤ◌ ◌-ℤ◌
make_history-IsWithinBudget_example =
    make_history-IsWithinBudget 2 (whole 1000 ∷ whole 0 ∷ []) (whole 60) 10 made pushes refl
