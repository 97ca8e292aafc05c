-- ===== src/Board/Apply.antt =====
-- lib/auto-apply.ts: when a change of a filter is applied. A control is named by a text.
use job_dashboard.Prelude.{
  ℕ, ◌+◌, String, str_eq, Bool, true, false, ◌||◌, Option, none, some, List, [], ◌∷◌, if◌then◌else◌,
}
pub mod Commits

pub data ApplyMode : Type 0 where
  pointer keyboard : ApplyMode

-- Where a held change waits for its commit signal.
pub data Pending : Type 0 where
  focusout : (control : String) → Pending
  idle : Pending

pub record ApplyState : Type 0 where
  pub mode : ApplyMode
  pub pending : Option Pending

-- `IDLE`
abbrev pub initial : ApplyState
initial = record { mode = ApplyMode.pointer; pending = none }

pub data Source : Type 0 where
  select checkbox : Source

pub data ApplyEvent : Type 0 where
  pointerdown : ApplyEvent
  keydown : (key : String) → ApplyEvent
  change : (control : String) → Source → ApplyEvent
  focus_left : (control : String) → ApplyEvent
  idled : ApplyEvent

pub record ApplyResult : Type 0 where
  pub state : ApplyState
  pub submit : Bool

-- `COMMIT_KEYS`
unfoldable pub commits : String → Bool
commits key = str_eq key "Enter" || str_eq key "Tab"

abbrev pub holding : ApplyState → Pending → ApplyResult
holding s p = record { state = record s { pending = some p }; submit = false }

abbrev pub unchanged : ApplyState → ApplyResult
unchanged s = record { state = s; submit = false }

abbrev pub submitting : ApplyState → ApplyResult
submitting s = record { state = record s { pending = none }; submit = true }

unfoldable pub select_changed : ApplyMode → ApplyState → String → ApplyResult
select_changed ApplyMode.pointer s control = submitting s
select_changed ApplyMode.keyboard s control = holding s (focusout control)

unfoldable pub control_left : Option Pending → ApplyState → String → ApplyResult
control_left (some (focusout c)) s control = if str_eq c control then submitting s else unchanged s
control_left _ s control = unchanged s

unfoldable pub ticking_stopped : Option Pending → ApplyState → ApplyResult
ticking_stopped (some idle) s = submitting s
ticking_stopped _ s = unchanged s

unfoldable pub apply_reducer : ApplyState → ApplyEvent → ApplyResult
unfolding commits
apply_reducer s pointerdown = unchanged (record s { mode = ApplyMode.pointer })
apply_reducer s (keydown key) =
    if commits key then unchanged s else unchanged (record s { mode = ApplyMode.keyboard })
apply_reducer s (change control Source.checkbox) = holding s idle
apply_reducer s (change control Source.select) = select_changed s.mode s control
apply_reducer s (focus_left control) = control_left s.pending s control
apply_reducer s idled = ticking_stopped s.pending s

-- The adapter feeds the events one after the other.
abbrev pub run : ApplyState → List ApplyEvent → ApplyState
run s [] = s
run s (e ∷ es) = run (apply_reducer s e).state es

abbrev pub count : Bool → ℕ
count true = 1
count false = 0

-- How often the form is submitted.
abbrev pub submissions : ApplyState → List ApplyEvent → ℕ
submissions s [] = 0
submissions s (e ∷ es) = count (apply_reducer s e).submit + submissions (apply_reducer s e).state es
