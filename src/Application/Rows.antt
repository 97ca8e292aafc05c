-- ===== src/Application/Rows.antt =====
-- The rows of the private database that the worker's server side reads and writes
-- (lib/private-db/worker-schema.ts, submission-schema.ts, discovery-schema.ts, schema.ts). UUIDs, hashes, owner ids and
-- e-mail addresses are numbers: the code only compares them. Columns that no modelled operation reads are left out.
use job_dashboard.Prelude.{ℕ, String, Bool, Option, List}
use job_dashboard.Application.State.{ApplicationState}
use job_dashboard.Application.Requests.{
  Checkpoint, RunState, Identity, EventRequest, EventResponse, SubmissionIntent, Acknowledgement,
  ScopedRequest,
}

pub record Pairing : Type 0 where
  pub id : ℕ
  pub owner_id : ℕ
  pub credential_binding : ℕ
  pub revision : ℕ
  pub revoked_at : Option ℕ

pub record Worker : Type 0 where
  pub id : ℕ
  pub owner_id : ℕ
  pub pairing_id : ℕ
  pub token_hash : ℕ
  pub credential_binding : ℕ
  pub revision : ℕ
  pub last_seen_at : Option ℕ
  pub revoked_at : Option ℕ
  pub daily_start_minute : Option ℕ
  pub time_zone : Option String
  pub daily_start_updated_at : Option ℕ

pub data DiscoveryState : Type 0 where
  idle capturing staging ready failed abandoned : DiscoveryState

pub record Run : Type 0 where
  pub id : ℕ
  pub owner_id : ℕ
  pub worker_id : ℕ
  pub revision : ℕ
  pub state : RunState
  pub policy_revision : ℕ
  pub policy_version : ℕ
  pub policy_hash : ℕ
  pub created_at : ℕ
  pub discovery_state : DiscoveryState
  pub capture_token : Option ℕ
  pub capture_until : Option ℕ
  pub current_manifest_id : Option ℕ

pub record Application : Type 0 where
  pub id : ℕ
  pub owner_id : ℕ
  pub run_id : ℕ
  pub worker_id : ℕ
  pub ats : String
  pub tenant : String
  pub requisition : String
  pub snapshot_manifest_id : Option ℕ
  pub employer_key : Option String
  pub started_at : Option ℕ
  pub state : ApplicationState
  pub revision : ℕ
  pub fence : ℕ
  pub lease_until : Option ℕ
  pub lease_checked_at : Option ℕ
  pub checkpoint : Option Checkpoint
  pub reason_code : Option String
  pub retries : ℕ
  pub available_at : ℕ
  pub created_at : ℕ
  pub hidden_at : Option ℕ

pub data SubmissionState : Type 0 where
  intent unknown submitted : SubmissionState

pub record Submission : Type 0 where
  pub intent_id : ℕ
  pub owner_id : ℕ
  pub application_id : ℕ
  pub worker_id : ℕ
  pub identity : Identity
  pub company : String
  pub role : String
  pub manifest_hash : ℕ
  pub artifact_hashes : List ℕ
  pub request_hash : ℕ
  pub state : SubmissionState
  pub created_at : ℕ
  pub submitted_at : Option ℕ

pub record Receipt : Type 0 where
  pub intent_id : ℕ
  pub owner_id : ℕ
  pub application_id : ℕ
  pub identity : Identity
  pub company : String
  pub role : String
  pub receipt_id : ℕ
  pub submitted_at : ℕ
  pub evidence : String
  pub created_at : ℕ

pub data ManifestState : Type 0 where
  staging ready abandoned : ManifestState

pub record Manifest : Type 0 where
  pub id : ℕ
  pub owner_id : ℕ
  pub run_id : ℕ
  pub state : ManifestState
  pub revision : ℕ

pub data Disposition : Type 0 where
  eligible duplicate unresolved held_policy held_cap manual_reported : Disposition

-- A role of a run's snapshot.
pub record Target : Type 0 where
  pub owner_id : ℕ
  pub run_id : ℕ
  pub application_id : Option ℕ
  pub disposition : Disposition

-- A role that the applicant reported as applied to by hand; its identity may be unknown.
pub record ManualMark : Type 0 where
  pub owner_id : ℕ
  pub ats : Option String
  pub tenant : Option String
  pub requisition : Option String
  pub created_at : ℕ

pub record User : Type 0 where
  pub id : ℕ
  pub email : ℕ
  pub email_verified : Bool

-- The parts of a saved policy that the worker's server side reads.
pub record Policy : Type 0 where
  pub allows_submit : Bool
  pub reads_jobs : Bool
  pub daily_application_cap : ℕ
  pub per_employer_cap : ℕ
  pub expires_at : Option ℕ

-- A policy head joined with the version it names.
pub record PolicyRow : Type 0 where
  pub owner_id : ℕ
  pub revision : ℕ
  pub enabled : Bool
  pub accepted_version : Option ℕ
  pub accepted_hash : Option ℕ
  pub version : ℕ
  pub hash : ℕ
  pub policy : Policy

pub record Event : Type 0 where
  pub owner_id : ℕ
  pub application_id : ℕ
  pub event_id : ℕ
  pub request_hash : ℕ
  pub acknowledgement : EventResponse
  pub created_at : ℕ

pub record StoredCommand : Type 0 where
  pub owner_id : ℕ
  pub request_id : ℕ
  pub request_hash : ℕ
  pub acknowledgement : Acknowledgement
  pub created_at : ℕ

pub record Db : Type 0 where
  pub users : List User
  pub pairings : List Pairing
  pub workers : List Worker
  pub runs : List Run
  pub applications : List Application
  pub events : List Event
  pub commands : List StoredCommand
  pub submissions : List Submission
  pub receipts : List Receipt
  pub manifests : List Manifest
  pub targets : List Target
  pub marks : List ManualMark
  pub policies : List PolicyRow

-- What the code takes from its surroundings: node's SHA-256 at each place where a value is hashed, the household
-- configuration, the deployment's variables, and for a time zone how far its wall clock is ahead at an instant, with a
-- day added, so that it is no less than 0 where the zone is behind.
pub record Env : Type 0 where
  pub hash_policy : Policy → ℕ
  pub hash_event : EventRequest → ℕ
  pub hash_intent : SubmissionIntent → ℕ
  pub hash_request : ScopedRequest → ℕ
  pub hash_token : String → ℕ
  pub hash_binding : (owner email : ℕ) → ℕ
  pub household : Option (List ℕ)
  pub preview_deployment : Bool
  pub ahead_and_day : (zone : String) (instant : ℕ) → ℕ
