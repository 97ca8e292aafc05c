-- ===== src/Application/Requests.antt =====
-- The requests and answers of lib/applications/worker-protocol.ts, as they are once their schemas accepted them.
-- UUIDs, hashes and owner ids are numbers: the code only compares them. Instants are milliseconds.
use job_dashboard.Prelude.{ℕ, String, Bool, Option, List}
use job_dashboard.Application.State.{ApplicationState}

pub data SafeStage : Type 0 where
  screening tailoring filling ready : SafeStage

pub record Checkpoint : Type 0 where
  pub stage : SafeStage
  pub sequence : ℕ

pub data RunState : Type 0 where
  running paused stopped : RunState

pub record Identity : Type 0 where
  pub ats : String
  pub tenant : String
  pub requisition : String

pub data LeaseMode : Type 0 where
  safe reconcile : LeaseMode

pub record Lease : Type 0 where
  pub application_id : ℕ
  pub run_id : ℕ
  pub worker_id : ℕ
  pub owner_id : ℕ
  pub policy_revision : ℕ
  pub identity : Identity
  pub state : ApplicationState
  pub revision : ℕ
  pub fence : ℕ
  pub lease_until : ℕ
  pub checkpoint : Option Checkpoint
  pub mode : LeaseMode

pub record LeaseRef : Type 0 where
  pub application_id : ℕ
  pub fence : ℕ
  pub expected_revision : ℕ

-- The evidence of an event request: the schema has no flag for a receipt or a rejection.
pub record EventEvidence : Type 0 where
  pub artifact_verified : Bool
  pub form_verified : Bool
  pub submit_permit : Bool

pub record EventRequest : Type 0 where
  pub event_id : ℕ
  pub fence : ℕ
  pub expected_revision : ℕ
  pub state : ApplicationState
  pub checkpoint : Checkpoint
  pub reason_code : Option String
  pub evidence : EventEvidence

pub record EventResponse : Type 0 where
  pub application_id : ℕ
  pub event_id : ℕ
  pub revision : ℕ
  pub state : ApplicationState
  pub replayed : Bool
  pub lease : Option Lease
  pub server_time : ℕ

pub record SubmissionIntent : Type 0 where
  pub intent_id : ℕ
  pub fence : ℕ
  pub expected_revision : ℕ
  pub identity : Identity
  pub company : String
  pub role : String
  pub manifest_hash : ℕ
  pub artifact_hashes : List ℕ

pub record SubmissionResponse : Type 0 where
  pub application_id : ℕ
  pub intent_id : ℕ
  pub state : ApplicationState
  pub revision : ℕ
  pub fence : ℕ
  pub replayed : Bool

pub record ReceiptCommand : Type 0 where
  pub intent_id : ℕ
  pub identity : Identity
  pub company : String
  pub role : String
  pub receipt_id : ℕ
  pub submitted_at : ℕ
  pub evidence : String

pub record ReceiptResponse : Type 0 where
  pub application_id : ℕ
  pub intent_id : ℕ
  pub state : ApplicationState
  pub revision : ℕ
  pub replayed : Bool

pub data RunAction : Type 0 where
  pause resume stop emergency_stop : RunAction

pub record RunCommand : Type 0 where
  pub request_id : ℕ
  pub expected_revision : ℕ
  pub action : RunAction

pub data ApplicationAction : Type 0 where
  skip retry_safe cancel emergency_stop approve_submit delete : ApplicationAction
  confirm_submitted confirm_not_submitted : ApplicationAction

pub record ApplicationCommand : Type 0 where
  pub request_id : ℕ
  pub expected_revision : ℕ
  pub action : ApplicationAction

pub record RunSummary : Type 0 where
  pub id : ℕ
  pub worker_id : ℕ
  pub revision : ℕ
  pub state : RunState
  pub created_at : ℕ

-- The fields of an application summary that come from the row; the rest are null in a command's acknowledgement.
pub record ApplicationSummary : Type 0 where
  pub id : ℕ
  pub run_id : ℕ
  pub worker_id : ℕ
  pub identity : Identity
  pub state : ApplicationState
  pub revision : ℕ
  pub reason_code : Option String
  pub checkpoint : Option Checkpoint
  pub retries : ℕ
  pub created_at : ℕ
  pub hidden_at : Option ℕ

-- What a stored command answered with.
pub data Acknowledgement : Type 0 where
  run : RunSummary → Acknowledgement
  application : ApplicationSummary → Acknowledgement

-- What a stored command's request hash covers: the scope text and the request.
pub data ScopedRequest : Type 0 where
  run_create : (request_id worker_id : ℕ) → ScopedRequest
  run_command : (run_id : ℕ) → RunCommand → ScopedRequest
  application_command : (run_id application_id : ℕ) → ApplicationCommand → ScopedRequest

-- LEASE_MS, HEARTBEAT_MS, SUBMIT_WAIT_MS, POLL_TIMEOUT_MS
abbrev pub lease_ms : ℕ
lease_ms = 120000

abbrev pub heartbeat_ms : ℕ
heartbeat_ms = 20000

abbrev pub submit_wait_ms : ℕ
submit_wait_ms = 1800000

abbrev pub poll_timeout_ms : ℕ
poll_timeout_ms = 30000

abbrev pub staging_fixture_tenant : String
staging_fixture_tenant = "workie-staging-fixture"
