-- ===== src/Board/Examples.antt =====
-- The board's theorems at concrete inputs.
use job_dashboard.Prelude.{String, ◌≡◌, ◌≤◌, ◌+◌, refl, Option, none, some, [], ◌∷◌, find, true}
use job_dashboard.Board.Apply.{
  ApplyMode, ApplyState, Source, pointerdown, change, focus_left, idled, apply_reducer, run,
  submissions, initial,
}
use job_dashboard.Board.Apply.Commits.{submissions_bound, keyboard_select_commits}
use job_dashboard.Board.Chips.{ChipRow, Tab, all_chips, row_chips}
use job_dashboard.Board.Chips.Labels.{Distinct, labelled, row_chips-Distinct, row_chips_keep_first}

keys : ApplyState
keys = record { mode = ApplyMode.keyboard; pending = none }

submissions_bound_example : submissions initial (change "type" Source.select ∷ idled ∷ []) ≤ 0 + 1
submissions_bound_example = submissions_bound initial (change "type" Source.select ∷ idled ∷ [])

keyboard_select_commits_example :
    (submissions keys (change "type" Source.select ∷ pointerdown ∷ idled ∷ []) ≡ 0)
    × ((apply_reducer
          (run keys (change "type" Source.select ∷ pointerdown ∷ idled ∷ []))
          (focus_left "type")).submit
        ≡ true)
    × ((apply_reducer
          (run keys (change "type" Source.select ∷ pointerdown ∷ idled ∷ []))
          (focus_left "type")).state.pending
        ≡ none)
unfolding keys
keyboard_select_commits_example =
    keyboard_select_commits keys "type" (pointerdown ∷ idled ∷ []) refl (tt, (tt, tt))

internship : ChipRow
internship = record {
  employment_type = some "internship";
  work_mode = some "remote";
  paid = some true;
  internship_season = none;
  seniority = none;
  badges = some ("internship" ∷ "visa" ∷ []);
}

row_chips-Distinct_example : Distinct (row_chips internship Tab.design)
row_chips-Distinct_example = row_chips-Distinct internship Tab.design

row_chips_keep_first_example :
    find (labelled "internship") (row_chips internship Tab.design)
    ≡ find (labelled "internship") (all_chips internship Tab.design)
row_chips_keep_first_example = row_chips_keep_first internship Tab.design "internship"

abbrev onsite : Option String
onsite = some "onsite"
