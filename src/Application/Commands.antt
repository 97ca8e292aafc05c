-- ===== src/Application/Commands.antt =====
-- `commandApplication` of lib/applications/runs.ts: what the applicant does to one application.
use Prim.Native.String.{String}
use job_dashboard.Prelude.{
  ℕ, ◌+◌, ◌*◌, ◌^◌, ◌==◌, ltb, leb, Bool, true, false, not, ◌&&◌, ◌||◌, Option, none, some,
  if◌then◌else◌, find, is_some,
}
use job_dashboard.Application.State.{
  ApplicationState, state_eq, is_terminal_state, is_safe_retry_state, is_awaiting_submit_approval,
  filling, ready, submitting, submission_unknown, submitted, failed, skipped, cancelled,
}
use job_dashboard.Application.Requests.{
  Checkpoint, RunState, ApplicationAction, skip, retry_safe, cancel, emergency_stop, approve_submit,
  delete, confirm_submitted, confirm_not_submitted, ApplicationCommand, ApplicationSummary,
  Acknowledgement, ScopedRequest, lease_ms, submit_wait_ms,
}
use job_dashboard.Application.Rows.{Run, Application, Submission, Db, Env}
use job_dashboard.Application.Tx.{
  not_found, conflict, policy_changed, submit_disabled, may_still_complete, M, ◌>>=◌, ◌>>◌, return,
  read, fail_if, require, app_scope, current, update_application, submission_for,
}
use job_dashboard.Application.WorkerStore.{get_policy, policy_of_run}
use job_dashboard.Application.Session.{Answer, commit, replay_command, save_command}
use job_dashboard.Application.Events.{stage_state}

unfoldable pub application_summary : Application → ApplicationSummary
application_summary a = record {
  id = a.id;
  run_id = a.run_id;
  worker_id = a.worker_id;
  identity = record { ats = a.ats; tenant = a.tenant; requisition = a.requisition };
  state = a.state;
  revision = a.revision;
  reason_code = a.reason_code;
  checkpoint = a.checkpoint;
  retries = a.retries;
  created_at = a.created_at;
  hidden_at = a.hidden_at;
}

-- The employer's window may still be open for an intent that is not older than its wait and one lease.
-- (`createdAt > now - SUBMIT_WAIT_MS - LEASE_MS`, with both terms added instead.)
unfoldable pub window_open : ℕ → ℕ → ℕ → Submission → Bool
unfolding submission_for
window_open owner application now s =
    submission_for owner application s && ltb now (s.created_at + submit_wait_ms + lease_ms)

unfoldable pub refuse_open_submission : ℕ → ℕ → ℕ → M (Unit {0})
refuse_open_submission owner application now = do
  open_window ← read (λ db. find (window_open owner application now) db.submissions)
  fail_if (is_some open_window) 409 may_still_complete

-- What an action makes of the row: its state, when a worker may take it, and its retries.
pub record Effect : Type 0 where
  pub state : ApplicationState
  pub available_at : ℕ
  pub retries : ℕ

abbrev pub action_name : ApplicationAction → String
action_name skip = "skip"
action_name retry_safe = "retry-safe"
action_name cancel = "cancel"
action_name emergency_stop = "emergency-stop"
action_name approve_submit = "approve-submit"
action_name delete = "delete"
action_name confirm_submitted = "confirm-submitted"
action_name confirm_not_submitted = "confirm-not-submitted"

abbrev pub reason_of : ApplicationAction → String
reason_of approve_submit = "submit_approved"
reason_of confirm_submitted = "applicant_confirmed_submitted"
reason_of confirm_not_submitted = "applicant_confirmed_not_submitted"
reason_of action = action_name action

unfoldable pub ambiguous : Application → Bool
ambiguous row = state_eq row.state submitting || state_eq row.state submission_unknown

abbrev pub is_stopped : RunState → Bool
is_stopped RunState.stopped = true
is_stopped _ = false

abbrev pub is_running : RunState → Bool
is_running RunState.running = true
is_running _ = false

-- The run of the request, unless it was stopped.
unfoldable pub unstopped : Option Run → Option Run
unstopped none = none
unstopped (some run) = if is_stopped run.state then none else some run

unfoldable pub run_by_id : ℕ → ℕ → Run → Bool
run_by_id owner id run = run.id == id && run.owner_id == owner

unfoldable pub retry_stage : Checkpoint → ApplicationState
retry_stage c = if state_eq (stage_state c.stage) ready then filling else stage_state c.stage

unfoldable pub retry : Env → ℕ → ℕ → ℕ → Application → M Effect
retry env owner run_id now row = do
  found ← read (λ db. find (run_by_id owner run_id) db.runs)
  run ← require (unstopped found) 409 conflict
  fail_if (not (is_safe_retry_state row.state row.reason_code)) 409 conflict
  checkpoint ← require row.checkpoint 409 conflict
  fail_if (leb 3 row.retries) 409 conflict
  policy ← read (get_policy env owner now)
  fail_if (not (policy_of_run policy run)) 409 policy_changed
  return (record {
    state = retry_stage checkpoint;
    available_at = now + 5000 * 2 ^ row.retries;
    retries = row.retries + 1;
  })

unfoldable pub approve : Env → ℕ → ℕ → ℕ → Application → M Effect
approve env owner run_id now row = do
  found ← read (λ db. find (run_by_id owner run_id) db.runs)
  run ← require (unstopped found) 409 conflict
  fail_if (not (is_awaiting_submit_approval row.state row.reason_code)) 409 conflict
  fail_if (not (is_running run.state)) 409 conflict
  policy ← read (get_policy env owner now)
  fail_if (not (policy.enabled && policy.allows_submit)) 403 submit_disabled
  fail_if (not (policy_of_run policy run)) 409 policy_changed
  return (record { state = ready; available_at = now; retries = row.retries })

unfoldable pub keeping : Application → ApplicationState → Effect
keeping row state = record { state = state; available_at = row.available_at; retries = row.retries }

unfoldable pub effect_of : Env → ℕ → ℕ → ℕ → Application → ApplicationAction → M Effect
effect_of env owner run_id now row retry_safe = retry env owner run_id now row
effect_of env owner run_id now row approve_submit = approve env owner run_id now row
effect_of env owner run_id now row confirm_submitted = do
  fail_if (not (state_eq row.state submission_unknown)) 409 conflict
  return (keeping row submitted)
effect_of env owner run_id now row confirm_not_submitted = do
  fail_if (not (state_eq row.state submission_unknown)) 409 conflict
  refuse_open_submission owner row.id now
  return (keeping row failed)
effect_of env owner run_id now row skip =
    return (keeping row (if ambiguous row then submission_unknown else skipped))
effect_of env owner run_id now row action =
    return (keeping row (if ambiguous row then submission_unknown else cancelled))

unfoldable pub commanded : Application → ApplicationAction → Effect → Application → Application
commanded row action effect a = record a {
  state = effect.state;
  revision = row.revision + 1;
  fence = row.fence + 1;
  lease_until = none;
  lease_checked_at = none;
  reason_code = some (reason_of action);
  available_at = effect.available_at;
  retries = effect.retries;
}

unfoldable pub hidden : ℕ → Application → Application → Application
unfolding is_terminal_state
hidden now row a = record a {
  hidden_at = some now;
  revision = row.revision + 1;
  fence = row.fence + 1;
  state = if is_terminal_state row.state then a.state else cancelled;
  reason_code = if is_terminal_state row.state then a.reason_code else some "delete";
  lease_until = if is_terminal_state row.state then a.lease_until else none;
  lease_checked_at = if is_terminal_state row.state then a.lease_checked_at else none;
}

-- The applicant answers a submission that could not be confirmed.
abbrev pub is_answer : ApplicationAction → Bool
is_answer confirm_submitted = true
is_answer confirm_not_submitted = true
is_answer _ = false

abbrev pub settles : ApplicationAction → Bool
settles emergency_stop = true
settles confirm_submitted = true
settles confirm_not_submitted = true
settles _ = false

unfoldable pub hide : ℕ → ApplicationCommand → Application → M Application
hide now command row = do
  fail_if (not (row.revision == command.expected_revision) || is_some row.hidden_at) 409 conflict
  fail_if (ambiguous row) 409 conflict
  update_application (current row) (hidden now row)

unfoldable pub act : Env → ℕ → ℕ → ℕ → ApplicationCommand → Application → M Application
act env owner run_id now command row = do
  fail_if
      ((not (row.revision == command.expected_revision)
          && not (is_answer command.action && state_eq row.state submission_unknown))
        || is_terminal_state row.state)
      409 conflict
  fail_if (ambiguous row && not (settles command.action)) 409 conflict
  effect ← effect_of env owner run_id now row command.action
  update_application (current row) (commanded row command.action effect)

abbrev pub is_delete : ApplicationAction → Bool
is_delete delete = true
is_delete _ = false

unfoldable pub obey : Env → ℕ → ℕ → ℕ → ApplicationCommand → Application → M Application
obey env owner run_id now command row =
    if is_delete command.action then hide now command row else act env owner run_id now command row

unfoldable pub in_run : ℕ → ℕ → ℕ → Application → Bool
unfolding app_scope
in_run owner run_id id a = app_scope owner id a && a.run_id == run_id

unfoldable pub new_command : Env → ℕ → ℕ → ℕ → ℕ → ApplicationCommand → M Acknowledgement
new_command env owner run_id id now command = do
  found ← read (λ db. find (in_run owner run_id id) db.applications)
  row ← require found 404 not_found
  updated ← obey env owner run_id now command row
  save_command env owner command.request_id (ScopedRequest.application_command run_id id command)
      (Acknowledgement.application (application_summary updated)) now

unfoldable pub answer_or : Option Acknowledgement → M Acknowledgement → M Acknowledgement
answer_or none action = action
answer_or (some answer) action = return answer

unfoldable pub answer_command : Env → ℕ → ℕ → ℕ → ℕ → ApplicationCommand → M Acknowledgement
answer_command env owner run_id id now command = do
  replay ←
      replay_command env owner command.request_id
        (ScopedRequest.application_command run_id id command)
  answer_or replay (new_command env owner run_id id now command)

unfoldable pub command_application :
    Env → ℕ → ℕ → ℕ → ℕ → ApplicationCommand → Db → Answer Acknowledgement × Db
command_application env owner run_id id now command db =
    commit db (answer_command env owner run_id id now command db)
