-- ===== src/Application/State/Machine.antt =====
-- The transition test of lib/applications/state.ts as a step relation: where an application can get to.
use job_dashboard.Prelude.{◌≡◌, refl, ◌⊎◌, inl, true, false, ◌||◌, arith}
use job_dashboard.Application.State.{
  ApplicationState, Evidence, can_transition, is_terminal_state, is_waiting_state, queued,
  screening, tailoring, filling, ready, submitting, submission_unknown, submitted,
}

-- An event that the transition test accepts.
pub data Step : ApplicationState → ApplicationState → Type 0 where
  accept :
      {from to : ApplicationState} (e : Evidence) → can_transition from to e ≡ true → Step from to

pub data Steps (from : ApplicationState) : ApplicationState → Type 0 where
  here : Steps from from
  next : {s t : ApplicationState} → Steps from s → Step s t → Steps from t

-- The flags that some accepted event has carried so far.
abbrev pub seen_also : Evidence → Evidence → Evidence
seen_also a b = record {
  artifact_verified = a.artifact_verified || b.artifact_verified;
  form_verified = a.form_verified || b.form_verified;
  submit_permit = a.submit_permit || b.submit_permit;
  receipt_verified = a.receipt_verified || b.receipt_verified;
  rejected = a.rejected || b.rejected;
}

abbrev pub no_evidence : Evidence
no_evidence = record {
  artifact_verified = false;
  form_verified = false;
  submit_permit = false;
  receipt_verified = false;
  rejected = false;
}

-- A history of accepted events of a new application, with the flags they carried.
pub data History : Evidence → ApplicationState → Type 0 where
  start : History no_evidence queued
  event :
      {seen : Evidence} {s t : ApplicationState} (e : Evidence)
      → History seen s
      → can_transition s t e ≡ true
      → History (seen_also seen e) t

-- What must have been verified by the time an application is in a state.
abbrev Needs : Evidence → ApplicationState → Type 0
Needs e filling = e.artifact_verified ≡ true
Needs e ready = (e.artifact_verified ≡ true) × (e.form_verified ≡ true)
Needs e submitting =
    (e.artifact_verified ≡ true) × (e.form_verified ≡ true) × (e.submit_permit ≡ true)
Needs e submission_unknown =
    (e.artifact_verified ≡ true) × (e.form_verified ≡ true) × (e.submit_permit ≡ true)
Needs e submitted =
    (e.artifact_verified ≡ true)
    × (e.form_verified ≡ true)
    × (e.submit_permit ≡ true)
    × (e.receipt_verified ≡ true)
Needs e _ = Unit {0}

Needs-step :
    (seen e : Evidence) (s t : ApplicationState)
    → Needs seen s
    → can_transition s t e ≡ true
    → Needs (seen_also seen e) t
unfolding can_transition
Needs-step seen e queued t n h = ground arith
Needs-step seen e s t n h = ground arith

History-Needs : {seen : Evidence} {s : ApplicationState} → History seen s → Needs seen s
History-Needs start = tt
History-Needs (event {seen} {s} {t} e h c) = Needs-step seen e s t (History-Needs h) c

-- An application is submitted only after its document, its form, its submission and its receipt have each been verified.
pub submitted_needs_all_evidence :
    (seen : Evidence)
    → History seen submitted
    → (seen.artifact_verified ≡ true)
      × (seen.form_verified ≡ true)
      × (seen.submit_permit ≡ true)
      × (seen.receipt_verified ≡ true)
submitted_needs_all_evidence seen h = History-Needs h

Closed : ApplicationState → Type 0
Closed s = (is_terminal_state s ≡ true) ⊎ (is_waiting_state s ≡ true)

held_step : (s t : ApplicationState) (e : Evidence) → Closed s → can_transition s t e ≡ false
unfolding can_transition Closed
held_step s t e h = ground arith

stays-Closed : {s t : ApplicationState} → Closed s → Steps s t → s ≡ t
stays-Closed c here = refl
stays-Closed {s} c (next {s = u} {t} r (accept e h)) =
    ground (arith, stays-Closed c r, held_step s t e c)

unknown_step :
    (s t : ApplicationState) (e : Evidence)
    → (s ≡ submission_unknown) ⊎ (s ≡ submitted)
    → can_transition s t e ≡ true
    → (t ≡ submission_unknown) ⊎ (t ≡ submitted)
unfolding can_transition
unknown_step s t e h c = ground arith

-- No worker event takes an application out of a terminal or a waiting state, and none takes an unknown submission
-- anywhere but to submitted.
pub held_states_stay :
    (s t : ApplicationState)
    → Steps s t
    → ((is_terminal_state s ≡ true) ⊎ (is_waiting_state s ≡ true) → s ≡ t)
      × (s ≡ submission_unknown → (t ≡ submission_unknown) ⊎ (t ≡ submitted))
unfolding Closed
held_states_stay s t r = (λ c. stays-Closed c r, λ e. unknown_stays e r)
  where
    unknown_stays :
        {u : ApplicationState}
        → s ≡ submission_unknown
        → Steps s u
        → (u ≡ submission_unknown) ⊎ (u ≡ submitted)
    unknown_stays e here = inl e
    unknown_stays e (next {s = v} {t = w} r (accept ev c)) =
        unknown_step v w ev (unknown_stays e r) c

all_evidence : Evidence
all_evidence = record {
  artifact_verified = true;
  form_verified = true;
  submit_permit = true;
  receipt_verified = true;
  rejected = false;
}

Steps-trans : {s t u : ApplicationState} → Steps s t → Steps t u → Steps s u
Steps-trans r here = r
Steps-trans r (next q st) = next (Steps-trans r q) st

then :
    (s t : ApplicationState)
    → can_transition s t all_evidence ≡ true
    → Steps t submitted
    → Steps s submitted
then s t h r = Steps-trans (next here (accept all_evidence h)) r

from_submitting : Steps submitting submitted
unfolding can_transition all_evidence
from_submitting = next here (accept all_evidence refl)

from_ready : Steps ready submitted
unfolding can_transition all_evidence
from_ready = then ready submitting refl from_submitting

from_filling : Steps filling submitted
unfolding can_transition all_evidence
from_filling = then filling ready refl from_ready

from_tailoring : Steps tailoring submitted
unfolding can_transition all_evidence
from_tailoring = then tailoring filling refl from_filling

from_screening : Steps screening submitted
unfolding can_transition all_evidence
from_screening = then screening tailoring refl from_tailoring

-- From every state that is neither terminal nor waiting, some accepted events lead to submitted.
pub active_can_complete :
    (s : ApplicationState)
    → is_terminal_state s ≡ false
    → is_waiting_state s ≡ false
    → Steps s submitted
unfolding can_transition all_evidence
active_can_complete queued h k = then queued screening refl from_screening
active_can_complete screening h k = from_screening
active_can_complete tailoring h k = from_tailoring
active_can_complete filling h k = from_filling
active_can_complete ready h k = from_ready
active_can_complete submitting h k = from_submitting
active_can_complete submission_unknown h k = then submission_unknown submitted refl here
active_can_complete _ h k = cc
