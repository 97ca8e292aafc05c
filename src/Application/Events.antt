-- ===== src/Application/Events.antt =====
-- lib/applications/events.ts: the worker records the next stage of an application that it holds a lease on.
use Prim.Native.String.{String}
use job_dashboard.Prelude.{
  ℕ, ◌+◌, ◌==◌, Bool, true, false, not, ◌&&◌, ◌||◌, Option, none, some, if◌then◌else◌, is_some,
  find,
}
use job_dashboard.Application.State.{
  ApplicationState, Evidence, state_eq, can_transition, is_waiting_state, is_terminal_state,
  screening, tailoring, filling, ready, submitting, submission_unknown,
}
use job_dashboard.Application.Requests.{
  SafeStage, Checkpoint, Lease, EventEvidence, EventRequest, EventResponse,
}
use job_dashboard.Application.Rows.{Worker, Application, Event, Db, Env}
use job_dashboard.Application.Tx.{
  not_found, conflict, execution_disabled, invalid_input, M, ◌>>=◌, ◌>>◌, return, read, fail,
  fail_if, require, current, update_application, event_key, insert_event,
}
use job_dashboard.Application.WorkerStore.{lease_of}
use job_dashboard.Application.Session.{Answer, with_worker}
use job_dashboard.Application.Leases.{assigned, checked_lease}

-- The request's flags as the transition test takes them: `receiptVerified` and `rejected` are absent.
unfoldable pub event_evidence : EventEvidence → Evidence
event_evidence e = record {
  artifact_verified = e.artifact_verified;
  form_verified = e.form_verified;
  submit_permit = e.submit_permit;
  receipt_verified = false;
  rejected = false;
}

abbrev pub stage_state : SafeStage → ApplicationState
stage_state SafeStage.screening = screening
stage_state SafeStage.tailoring = tailoring
stage_state SafeStage.filling = filling
stage_state SafeStage.ready = ready

-- The event gives the application back: it waits, ends, or is a submission that could not be confirmed.
unfoldable pub releases : EventRequest → Bool
unfolding is_waiting_state is_terminal_state
releases command =
    is_waiting_state command.state
    || is_terminal_state command.state
    || state_eq command.state submission_unknown

unfoldable pub expected_stage : Application → EventRequest → ApplicationState
unfolding releases
expected_stage app command =
    if releases command
    then if state_eq app.state submitting then ready else app.state
    else command.state

abbrev pub sequence_of : Option Checkpoint → ℕ
sequence_of none = 0
sequence_of (some c) = c.sequence

unfoldable pub checkpoint_follows : Application → EventRequest → Bool
unfolding expected_stage
checkpoint_follows app command =
    state_eq (stage_state command.checkpoint.stage) (expected_stage app command)
    && command.checkpoint.sequence == sequence_of app.checkpoint + 1

unfoldable pub advanced : Application → EventRequest → Application → Application
unfolding releases
advanced app command a = record a {
  state = command.state;
  checkpoint = some command.checkpoint;
  reason_code = command.reason_code;
  revision = app.revision + 1;
  lease_until = if releases command then none else a.lease_until;
  lease_checked_at = if releases command then none else a.lease_checked_at;
  fence = if releases command then app.fence + 1 else a.fence;
}

unfoldable pub next_lease : Bool → Application → M (Option Lease)
next_lease true row = return none
next_lease false row = do lease ← lease_of row; return (some lease)

unfoldable pub replayed : Env → EventRequest → Event → ℕ → M EventResponse
replayed env command previous now =
    if previous.request_hash == env.hash_event command
    then return
        (record (previous.acknowledgement) { replayed = true; lease = none; server_time = now })
    else fail 409 conflict

abbrev pub acknowledgement : ℕ → ℕ → EventRequest → Application → Option Lease → EventResponse
acknowledgement now application command row lease = record {
  application_id = application;
  event_id = command.event_id;
  revision = row.revision;
  state = row.state;
  replayed = false;
  lease = lease;
  server_time = now;
}

abbrev pub event_row : Env → ℕ → ℕ → EventRequest → Worker → Application → Event
event_row env now application command worker row = record {
  owner_id = worker.owner_id;
  application_id = application;
  event_id = command.event_id;
  request_hash = env.hash_event command;
  acknowledgement = acknowledgement now application command row none;
  created_at = now;
}

-- The answer, and its record without the lease.
unfoldable pub acknowledge : Env → ℕ → ℕ → EventRequest → Worker → Application → M EventResponse
acknowledge env now application command worker row = do
  lease ← next_lease (releases command) row
  insert_event (event_row env now application command worker row)
  return (acknowledgement now application command row lease)

-- The transition, its checkpoint and its reason are as the code wants them.
unfoldable pub check_event : Application → EventRequest → M (Unit {0})
check_event app command = do
  fail_if (not (can_transition app.state command.state (event_evidence command.evidence))) 409
      execution_disabled
  fail_if (not (checkpoint_follows app command)) 409 conflict
  fail_if (releases command && not (is_some command.reason_code)) 400 invalid_input

unfoldable pub fresh_event : Env → ℕ → ℕ → EventRequest → Worker → M EventResponse
fresh_event env now application command worker = do
  app ←
      checked_lease env worker
        (record {
          application_id = application;
          fence = command.fence;
          expected_revision = command.expected_revision;
        })
        now
  check_event app command
  row ← update_application (current app) (advanced app command)
  acknowledge env now application command worker row

-- A recorded event is answered from its record, any other is carried out.
unfoldable pub answer_event : Env → ℕ → ℕ → EventRequest → Worker → Option Event → M EventResponse
answer_event env now application command worker none =
    fresh_event env now application command worker
answer_event env now application command worker (some previous) = replayed env command previous now

unfoldable pub record_event : Env → ℕ → ℕ → EventRequest → Worker → M EventResponse
record_event env now application command worker = do
  found ← read (λ db. find (assigned worker application) db.applications)
  owned ← require found 404 not_found
  previous ← read (λ db. find (event_key worker.owner_id application command.event_id) db.events)
  answer_event env now application command worker previous

unfoldable pub record_worker_event :
    Env → String → ℕ → ℕ → EventRequest → Db → Answer EventResponse × Db
record_worker_event env token now application command =
    with_worker env token now (record_event env now application command)
