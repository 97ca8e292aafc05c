-- ===== src/Application/State.antt =====
-- lib/applications/state.ts: the states of an application, their classes, and the transition test.
-- A reason code is a text that may be absent; evidence is the optional Boolean flags of the request.
use job_dashboard.Prelude.{
  ℕ, ◌==◌, String, str_eq, Bool, true, false, not, ◌&&◌, ◌||◌, Option, none, some, List, [], ◌∷◌,
  if◌then◌else◌, or_else, any,
}
pub mod Machine

pub data ApplicationState : Type 0 where
  queued screening tailoring filling ready needs_answer needs_document : ApplicationState
  needs_policy_decision needs_login needs_verification provider_unavailable : ApplicationState
  retryable_failure blocked_unsupported submitting submission_unknown : ApplicationState
  submitted failed skipped cancelled : ApplicationState

-- The position in APPLICATION_STATES, by which two states are compared.
abbrev pub ordinal : ApplicationState → ℕ
ordinal queued = 0
ordinal screening = 1
ordinal tailoring = 2
ordinal filling = 3
ordinal ready = 4
ordinal needs_answer = 5
ordinal needs_document = 6
ordinal needs_policy_decision = 7
ordinal needs_login = 8
ordinal needs_verification = 9
ordinal provider_unavailable = 10
ordinal retryable_failure = 11
ordinal blocked_unsupported = 12
ordinal submitting = 13
ordinal submission_unknown = 14
ordinal submitted = 15
ordinal failed = 16
ordinal skipped = 17
ordinal cancelled = 18

-- `===` on states.
abbrev pub state_eq : ApplicationState → ApplicationState → Bool
state_eq a b = ordinal a == ordinal b

abbrev pub includes : List ApplicationState → ApplicationState → Bool
includes [] s = false
includes (t ∷ ts) s = state_eq s t || includes ts s

abbrev pub waiting : List ApplicationState
waiting =
    needs_answer ∷ needs_document ∷ needs_policy_decision ∷ needs_login ∷ needs_verification
    ∷ provider_unavailable ∷ retryable_failure ∷ blocked_unsupported ∷ []

unfoldable pub is_waiting_state : ApplicationState → Bool
is_waiting_state s = includes waiting s

unfoldable pub is_terminal_state : ApplicationState → Bool
is_terminal_state s = includes (submitted ∷ failed ∷ skipped ∷ cancelled ∷ []) s

abbrev pub applicant_document_holds : List String
applicant_document_holds =
    "transcript_unavailable" ∷ "required_document_unavailable" ∷ "resume_required"
    ∷ "cover_letter_unavailable" ∷ "document_tailoring_unavailable" ∷ []

-- `reasonCode === code`
abbrev pub reason_is : Option String → String → Bool
reason_is none code = false
reason_is (some r) code = str_eq r code

unfoldable pub is_safe_retry_state : ApplicationState → Option String → Bool
unfolding any
is_safe_retry_state s reason =
    state_eq s provider_unavailable
    || state_eq s retryable_failure
    || (state_eq s needs_verification && reason_is reason "provider_inspect_required")
    || (state_eq s needs_document
        && any (λ hold. str_eq hold (or_else reason "")) applicant_document_holds)

abbrev pub submit_approval : String
submit_approval = "submit_approval"

unfoldable pub is_awaiting_submit_approval : ApplicationState → Option String → Bool
is_awaiting_submit_approval s reason =
    state_eq s needs_policy_decision && reason_is reason submit_approval

-- Each flag is `evidence.flag === true`.
pub record Evidence : Type 0 where
  pub artifact_verified : Bool
  pub form_verified : Bool
  pub submit_permit : Bool
  pub receipt_verified : Bool
  pub rejected : Bool

unfoldable pub can_transition : ApplicationState → ApplicationState → Evidence → Bool
unfolding is_waiting_state is_terminal_state
can_transition from to evidence =
    if is_terminal_state from
    then false
    else if state_eq from submitting
    then state_eq to submission_unknown
      || (state_eq to submitted && evidence.receipt_verified)
      || (state_eq to filling && evidence.rejected)
    else if state_eq from submission_unknown
    then state_eq to submitted && evidence.receipt_verified
    else if is_waiting_state from
    then false
    else if state_eq from queued
    then state_eq to screening
    else if is_waiting_state to || includes (failed ∷ skipped ∷ cancelled ∷ []) to
    then true
    else if state_eq from to
    then true
    else if state_eq from screening
    then state_eq to tailoring
    else if state_eq from tailoring
    then state_eq to filling && evidence.artifact_verified
    else if state_eq from filling
    then state_eq to ready && evidence.form_verified
    else state_eq from ready && state_eq to submitting && evidence.submit_permit
