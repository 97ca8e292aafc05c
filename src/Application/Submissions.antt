-- ===== src/Application/Submissions.antt =====
-- lib/applications/submissions.ts: the one submission intent of an application, and the receipt that closes it.
use Prim.Native.String.{String}
use job_dashboard.Prelude.{
  ℕ, List, ◌+◌, ◌==◌, ltb, str_eq, Bool, true, false, not, ◌&&◌, ◌||◌, Option, none, some,
  if◌then◌else◌, find, is_some, update_where,
}
use job_dashboard.Application.State.{
  ApplicationState, state_eq, ready, submitting, submission_unknown, submitted,
}
use job_dashboard.Application.Requests.{
  Identity, LeaseRef, SubmissionIntent, SubmissionResponse, ReceiptCommand, ReceiptResponse,
  staging_fixture_tenant,
}
use job_dashboard.Application.Rows.{
  Worker, Application, Submission, SubmissionState, Receipt, Db, Env,
}
use job_dashboard.Application.Tx.{
  conflict, execution_disabled, identity_mismatch, staging_fixture_only,
  submission_already_intended, receipt_identity_mismatch, invalid_receipt, M, done, ◌>>=◌, ◌>>◌,
  return, read, fail_if, require, throwing, app_scope, current, update_application, submission_for,
  insert_submission, insert_receipt,
}
use job_dashboard.Application.Session.{Answer, with_worker}
use job_dashboard.Application.Leases.{assigned, checked_lease}

unfoldable pub same_identity : Identity → Identity → Bool
same_identity row input =
    str_eq row.ats input.ats
    && str_eq row.tenant input.tenant
    && str_eq row.requisition input.requisition

abbrev pub identity_of : Application → Identity
identity_of app = record { ats = app.ats; tenant = app.tenant; requisition = app.requisition }

-- The row, if it is there and in the state.
unfoldable pub in_state : (ApplicationState → Bool) → Option Application → Option Application
in_state p none = none
in_state p (some app) = if p app.state then some app else none

unfoldable pub intent_row : Env → ℕ → ℕ → SubmissionIntent → Worker → Submission
intent_row env now application command worker = record {
  intent_id = command.intent_id;
  owner_id = worker.owner_id;
  application_id = application;
  worker_id = worker.id;
  identity = command.identity;
  company = command.company;
  role = command.role;
  manifest_hash = command.manifest_hash;
  artifact_hashes = command.artifact_hashes;
  request_hash = env.hash_intent command;
  state = SubmissionState.intent;
  created_at = now;
  submitted_at = none;
}

unfoldable pub sending : Application → Application → Application
sending app a = record a { state = submitting; revision = app.revision + 1; reason_code = none }

unfoldable pub replay_intent :
    Env → ℕ → SubmissionIntent → Worker → Submission → M SubmissionResponse
replay_intent env application command worker existing = do
  fail_if
      (not (
        existing.request_hash == env.hash_intent command && existing.application_id == application))
      409 conflict
  found ← read (λ db. find (app_scope worker.owner_id application) db.applications)
  app ← require (in_state (λ s. state_eq s submitting) found) 409 conflict
  return (record {
    application_id = application;
    intent_id = command.intent_id;
    state = submitting;
    revision = app.revision;
    fence = app.fence;
    replayed = true;
  })

abbrev pub intent_lease : ℕ → SubmissionIntent → LeaseRef
intent_lease application command = record {
  application_id = application;
  fence = command.fence;
  expected_revision = command.expected_revision;
}

-- The intent is for this role, may be sent from this deployment, and is the application's first.
unfoldable pub check_intent : Env → ℕ → SubmissionIntent → Worker → Application → M (Unit {0})
check_intent env application command worker app = do
  fail_if (not (same_identity (identity_of app) command.identity)) 409 identity_mismatch
  fail_if (env.preview_deployment && not (str_eq app.tenant staging_fixture_tenant)) 403
      staging_fixture_only
  intended ← read (λ db. find (submission_for worker.owner_id application) db.submissions)
  fail_if (is_some intended) 409 submission_already_intended

abbrev pub intent_answer : ℕ → SubmissionIntent → Application → M SubmissionResponse
intent_answer application command updated = return (record {
  application_id = application;
  intent_id = command.intent_id;
  state = submitting;
  revision = updated.revision;
  fence = updated.fence;
  replayed = false;
})

unfoldable pub store_intent :
    Env → ℕ → ℕ → SubmissionIntent → Worker → Application → M SubmissionResponse
store_intent env now application command worker app = do
  insert_submission (intent_row env now application command worker)
  updated ← update_application (current app) (sending app)
  intent_answer application command updated

unfoldable pub new_intent : Env → ℕ → ℕ → SubmissionIntent → Worker → M SubmissionResponse
new_intent env now application command worker = do
  found ← read (λ db. find (assigned worker application) db.applications)
  app ← require (in_state (λ s. state_eq s ready) found) 409 execution_disabled
  checked ← throwing (checked_lease env worker (intent_lease application command) now)
  check_intent env application command worker app
  store_intent env now application command worker app

unfoldable pub intent_known : Worker → ℕ → Submission → Bool
intent_known worker intent s = s.owner_id == worker.owner_id && s.intent_id == intent

unfoldable pub answer_intent :
    Env → ℕ → ℕ → SubmissionIntent → Worker → Option Submission → M SubmissionResponse
answer_intent env now application command worker none =
    new_intent env now application command worker
answer_intent env now application command worker (some existing) =
    replay_intent env application command worker existing

unfoldable pub begin : Env → ℕ → ℕ → SubmissionIntent → Worker → M SubmissionResponse
begin env now application command worker = do
  existing ← read (λ db. find (intent_known worker command.intent_id) db.submissions)
  answer_intent env now application command worker existing

unfoldable pub begin_submission :
    Env → String → ℕ → ℕ → SubmissionIntent → Db → Answer SubmissionResponse × Db
begin_submission env token now application command =
    with_worker env token now (begin env now application command)

unfoldable pub intent_of : Worker → ℕ → ℕ → Submission → Bool
unfolding intent_known
intent_of worker application intent s =
    intent_known worker intent s && s.application_id == application && s.worker_id == worker.id

unfoldable pub intent_agrees : ReceiptCommand → Submission → Bool
unfolding same_identity
intent_agrees command s =
    same_identity s.identity command.identity
    && str_eq s.company command.company
    && str_eq s.role command.role

unfoldable pub receipt_row : ℕ → ℕ → ReceiptCommand → Worker → Receipt
receipt_row now application command worker = record {
  intent_id = command.intent_id;
  owner_id = worker.owner_id;
  application_id = application;
  identity = command.identity;
  company = command.company;
  role = command.role;
  receipt_id = command.receipt_id;
  submitted_at = command.submitted_at;
  evidence = command.evidence;
  created_at = now;
}

unfoldable pub confirmed : Application → Application → Application
confirmed app a = record a {
  state = submitted;
  lease_until = none;
  lease_checked_at = none;
  fence = app.fence + 1;
  revision = app.revision + 1;
  reason_code = none;
}

abbrev submission_state_eq : SubmissionState → SubmissionState → Bool
submission_state_eq SubmissionState.intent SubmissionState.intent = true
submission_state_eq SubmissionState.unknown SubmissionState.unknown = true
submission_state_eq SubmissionState.submitted SubmissionState.submitted = true
submission_state_eq _ _ = false

-- The intent's own row becomes submitted; no row need match.
unfoldable pub closed_intents :
    Worker → ReceiptCommand → Submission → List Submission → List Submission
unfolding intent_known
closed_intents worker command intent rows =
    update_where
      (λ s. intent_known worker command.intent_id s && submission_state_eq s.state intent.state)
      (λ s. record s {
        state = SubmissionState.submitted;
        submitted_at = some command.submitted_at;
      })
      rows

abbrev pub close_intent : Worker → ReceiptCommand → Submission → M (Unit {0})
close_intent worker command intent db =
    done tt (record db { submissions = closed_intents worker command intent db.submissions })

unfoldable pub replay_receipt : ℕ → ReceiptCommand → Worker → Receipt → M ReceiptResponse
replay_receipt application command worker previous = do
  fail_if
      (not (
        previous.receipt_id == command.receipt_id && previous.submitted_at == command.submitted_at))
      409 conflict
  found ← read (λ db. find (app_scope worker.owner_id application) db.applications)
  app ← require (in_state (λ s. state_eq s submitted) found) 409 conflict
  return (record {
    application_id = application;
    intent_id = command.intent_id;
    state = submitted;
    revision = app.revision;
    replayed = true;
  })

abbrev pub receipt_lease : ℕ → Application → LeaseRef
receipt_lease application app = record {
  application_id = application;
  fence = app.fence;
  expected_revision = app.revision;
}

abbrev pub receipt_answer : ℕ → ReceiptCommand → Application → M ReceiptResponse
receipt_answer application command updated = return (record {
  application_id = application;
  intent_id = command.intent_id;
  state = submitted;
  revision = updated.revision;
  replayed = false;
})

unfoldable pub store_receipt :
    ℕ → ℕ → ReceiptCommand → Worker → Submission → Application → M ReceiptResponse
store_receipt now application command worker intent app = do
  insert_receipt (receipt_row now application command worker)
  close_intent worker command intent
  updated ← update_application (current app) (confirmed app)
  receipt_answer application command updated

abbrev pub awaiting_receipt : ApplicationState → Bool
awaiting_receipt s = state_eq s submitting || state_eq s submission_unknown

unfoldable pub new_receipt : Env → ℕ → ℕ → ReceiptCommand → Worker → Submission → M ReceiptResponse
new_receipt env now application command worker intent = do
  fail_if (ltb (now + 300000) command.submitted_at) 400 invalid_receipt
  found ← read (λ db. find (assigned worker application) db.applications)
  app ← require (in_state awaiting_receipt found) 409 execution_disabled
  checked ← throwing (checked_lease env worker (receipt_lease application app) now)
  store_receipt now application command worker intent app

unfoldable pub receipt_known : Worker → ℕ → Receipt → Bool
receipt_known worker intent r = r.owner_id == worker.owner_id && r.intent_id == intent

unfoldable pub answer_receipt :
    Env → ℕ → ℕ → ReceiptCommand → Worker → Submission → Option Receipt → M ReceiptResponse
answer_receipt env now application command worker intent none =
    new_receipt env now application command worker intent
answer_receipt env now application command worker intent (some previous) =
    replay_receipt application command worker previous

unfoldable pub take_receipt : Env → ℕ → ℕ → ReceiptCommand → Worker → M ReceiptResponse
take_receipt env now application command worker = do
  known ← read (λ db. find (intent_of worker application command.intent_id) db.submissions)
  intent ← require known 409 receipt_identity_mismatch
  fail_if (not (intent_agrees command intent)) 409 receipt_identity_mismatch
  previous ← read (λ db. find (receipt_known worker command.intent_id) db.receipts)
  answer_receipt env now application command worker intent previous

unfoldable pub record_receipt :
    Env → String → ℕ → ℕ → ReceiptCommand → Db → Answer ReceiptResponse × Db
record_receipt env token now application command =
    with_worker env token now (take_receipt env now application command)
