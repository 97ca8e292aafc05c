-- ===== src/Board/Apply/Commits.antt =====
-- lib/auto-apply.ts: a change is applied once, at its commit signal.
use job_dashboard.Prelude.{
  ℕ, ◌+◌, ◌≤◌, ◌≡◌, refl, String, str_eq, eq_iff, true, false, none, some, is_some, List, [], ◌∷◌,
  arith, All,
}
use job_dashboard.Board.Apply.{
  ApplyMode, focusout, ApplyState, Source, ApplyEvent, pointerdown, keydown, change, focus_left,
  idled, holding, select_changed, control_left, ticking_stopped, apply_reducer, run, count,
  submissions,
}

abbrev pub changes : List ApplyEvent → ℕ
changes [] = 0
changes (change c source ∷ es) = 1 + changes es
changes (e ∷ es) = changes es

step_changes :
    (s : ApplyState) (e : ApplyEvent)
    → count (apply_reducer s e).submit + count (is_some (apply_reducer s e).state.pending)
      ≤ count (is_some s.pending) + changes (e ∷ [])
unfolding apply_reducer select_changed control_left ticking_stopped
step_changes s pointerdown = omega arith
step_changes s (keydown key) = ground arith
step_changes s (change c Source.checkbox) = omega arith
step_changes s (change c Source.select) = ground arith
step_changes s (focus_left c) = ground arith
step_changes s idled = ground arith

-- Over any sequence of events the form is submitted at most once for each change of a control, and once more if a change
-- was being held at the start.
pub submissions_bound :
    (s : ApplyState) (es : List ApplyEvent)
    → submissions s es ≤ count (is_some s.pending) + changes es
submissions_bound s [] = omega arith
submissions_bound s (e ∷ es) =
    omega
      (arith, step_changes s e, submissions_bound (apply_reducer s e).state es, changes_cons e es)
  where
    changes_cons :
        (e : ApplyEvent) (es : List ApplyEvent) → changes (e ∷ es) ≡ changes (e ∷ []) + changes es
    changes_cons e es = ground arith

-- Nothing changes, and the focus does not leave the control.
abbrev pub IsQuiet : String → ApplyEvent → Type 0
IsQuiet control (change c source) = ⊥
IsQuiet control (focus_left c) = str_eq control c ≡ false
IsQuiet control _ = Unit {0}

quiet_step :
    (control : String) (s : ApplyState) (e : ApplyEvent)
    → s.pending ≡ some (focusout control)
    → IsQuiet control e
    → ((apply_reducer s e).submit ≡ false)
      × ((apply_reducer s e).state.pending ≡ some (focusout control))
unfolding apply_reducer
quiet_step control s pointerdown h q = (refl, h)
quiet_step control s (keydown key) h q = ground arith
quiet_step control s (focus_left c) h q = unfold control_left in (rw (h, q) (refl, refl))
quiet_step control s (change c source) h q = absurd q
quiet_step control s idled h q = unfold ticking_stopped in (rw h (refl, refl))

-- The change of a select that the keyboard moves through is held.
quiet_run :
    (control : String) (s : ApplyState) (es : List ApplyEvent)
    → s.pending ≡ some (focusout control)
    → All (IsQuiet control) es
    → (submissions s es ≡ 0) × ((run s es).pending ≡ some (focusout control))
quiet_run control s [] h q = (refl, h)
quiet_run control s (e ∷ es) h q =
    let (n, p) = quiet_step control s e h q.0 in
    let (m, r) = quiet_run control (apply_reducer s e).state es p q.1 in (rw (n, m) refl, r)

leaving :
    (control : String) (s : ApplyState)
    → s.pending ≡ some (focusout control)
    → ((apply_reducer s (focus_left control)).submit ≡ true)
      × ((apply_reducer s (focus_left control)).state.pending ≡ none)
unfolding apply_reducer control_left
leaving control s h = rw (h, (eq_iff control control).1 refl) (refl, refl)

-- A select that the keyboard moves through is applied when the focus leaves it, and not before: after its change no event
-- but another change or the leaving submits the form, and the leaving does, once.
pub keyboard_select_commits :
    (s : ApplyState) (control : String) (es : List ApplyEvent)
    → s.mode ≡ ApplyMode.keyboard
    → All (IsQuiet control) es
    → (submissions s (change control Source.select ∷ es) ≡ 0)
      × ((apply_reducer (run s (change control Source.select ∷ es)) (focus_left control)).submit
          ≡ true)
      × ((apply_reducer
            (run s (change control Source.select ∷ es))
            (focus_left control)).state.pending
          ≡ none)
keyboard_select_commits s control es m q =
    let held : apply_reducer s (change control Source.select) ≡ holding s (focusout control) =
      unfold apply_reducer select_changed in (rw m refl) in
    let (n, p) = quiet_run control (holding s (focusout control)).state es refl q in
    let (l, g) = leaving control (run (holding s (focusout control)).state es) p in
    rw held (omega (arith, n), l, g)
