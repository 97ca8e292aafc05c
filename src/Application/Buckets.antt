-- ===== src/Application/Buckets.antt =====
-- lib/applications/buckets.ts and badges.ts: which list a row stands in, what its card asks, and its badge.
pub mod Views
use job_dashboard.Prelude.{
  is_empty, ℕ, ◌+◌, ◌≤◌, ◌≡◌, refl, ◌↔◌, ltb, String, str_eq, Bool, true, false, not, ◌&&◌, ◌||◌,
  Option, none, some, is_some, or_else, List, [], ◌∷◌, if◌then◌else◌, arith,
}
use job_dashboard.Application.State.{
  ApplicationState, state_eq, includes, reason_is, is_terminal_state, is_awaiting_submit_approval,
  screening, tailoring, filling, ready, submitting, submission_unknown, submitted, needs_answer,
}
use job_dashboard.Application.State
use job_dashboard.Application.Rows.{Application}

-- 14 and 30 days.
abbrev pub archive_after_ms : ℕ
archive_after_ms = 1209600000

abbrev pub archive_keep_ms : ℕ
archive_keep_ms = 2592000000

unfoldable pub archived_at : Application → ℕ
archived_at app = or_else app.hidden_at (app.created_at + archive_after_ms)

abbrev pub in_flight_states : List ApplicationState
in_flight_states = submitting ∷ submission_unknown ∷ []

abbrev pub live_states : List ApplicationState
live_states = screening ∷ tailoring ∷ filling ∷ ready ∷ submitting ∷ []

unfoldable pub in_live : Application → Bool
in_live app =
    not (is_some app.hidden_at)
    && (includes live_states app.state
        || reason_is app.reason_code "question_unresolved"
        || is_awaiting_submit_approval app.state app.reason_code)

pub data Bucket : Type 0 where
  action applied archived gone : Bucket

unfoldable pub bucket : Application → ℕ → Bucket
bucket app now =
    if not (is_some app.hidden_at) && state_eq app.state submitted
    then applied
    else if (not (is_some app.hidden_at) && includes in_flight_states app.state) || in_live app
    then action
    else if ltb now (archived_at app)
    then action
    else if ltb now (archived_at app + archive_keep_ms)
    then archived
    else gone

-- The questions of a row's card, and whether it is restarted instead.
pub record Asks (Q : Type 0) : Type 0 where
  pub questions : List Q
  pub restart : Bool

unfoldable pub row_asks : {Q : Type 0} → ApplicationState → Option String → List Q → Asks Q
row_asks state reason open_questions =
    let questions = if is_terminal_state state then [] else open_questions in
    record {
      questions = questions;
      restart =
          state_eq state needs_answer
          && is_empty questions
          && not (reason_is reason "question_unresolved" || reason_is reason "run_paused");
    }

pub data Tone : Type 0 where
  queued progress answer document approval login verification retry : Tone
  unsupported unknown applied failed skipped cancelled : Tone

-- `TONES`
unfoldable pub tone_of : ApplicationState → Tone
tone_of State.queued = Tone.queued
tone_of State.screening = progress
tone_of State.tailoring = progress
tone_of State.filling = progress
tone_of State.ready = progress
tone_of State.submitting = progress
tone_of State.needs_answer = answer
tone_of State.needs_document = document
tone_of State.needs_policy_decision = answer
tone_of State.needs_login = login
tone_of State.needs_verification = verification
tone_of State.provider_unavailable = retry
tone_of State.retryable_failure = retry
tone_of State.blocked_unsupported = unsupported
tone_of State.submission_unknown = unknown
tone_of State.submitted = Tone.applied
tone_of State.failed = Tone.failed
tone_of State.skipped = Tone.skipped
tone_of State.cancelled = Tone.cancelled

-- `statusBadge(...).tone`
unfoldable pub status_badge : ApplicationState → Option String → Tone
status_badge state reason =
    if is_awaiting_submit_approval state reason then approval else tone_of state
