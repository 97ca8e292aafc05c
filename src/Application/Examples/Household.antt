-- ===== src/Application/Examples/Household.antt =====
-- A small household with one worker, two of its applications, and requests about them.
use Prim.Native.String.{String}
use job_dashboard.Prelude.{ℕ, true, false, none, some, [], ◌∷◌, arith}
use job_dashboard.Application.State.{ApplicationState, ready}
use job_dashboard.Application.Requests.{
  EventRequest, ReceiptCommand, ApplicationCommand, cancel, SafeStage, RunState, SubmissionIntent,
  ScopedRequest, run_create, run_command, application_command,
}
use job_dashboard.Application.Rows.{Worker, DiscoveryState, Application, Db, Env}
use job_dashboard.Application.Safety.Keys.{Distinct}

abbrev pub token : String
token = "abcdefghijklmnopqrstuvwxyz0123456789ABCDEFG"

abbrev pub env : Env
env = record {
  hash_policy = λ p. 11;
  hash_event = λ c. c.event_id;
  hash_intent = λ c. c.intent_id;
  hash_request = hash;
  hash_token = λ t. 99;
  hash_binding = λ owner email. 55;
  household = some (42 ∷ []);
  preview_deployment = false;
  ahead_and_day = λ zone instant. 86400000;
}
  where
    hash : ScopedRequest → ℕ
    hash (run_create request worker) = request
    hash (run_command run c) = c.request_id
    hash (application_command run application c) = c.request_id

abbrev pub worker : Worker
worker = record {
  id = 7;
  owner_id = 1;
  pairing_id = 3;
  token_hash = 99;
  credential_binding = 55;
  revision = 1;
  last_seen_at = none;
  revoked_at = none;
  daily_start_minute = none;
  time_zone = none;
  daily_start_updated_at = none;
}

abbrev pub ready_row : Application
ready_row = record {
  id = 20;
  owner_id = 1;
  run_id = 5;
  worker_id = 7;
  ats = "greenhouse";
  tenant = "acme";
  requisition = "r1";
  snapshot_manifest_id = none;
  employer_key = none;
  started_at = some 100;
  state = ready;
  revision = 4;
  fence = 2;
  lease_until = some 121000;
  lease_checked_at = some 1000;
  checkpoint = some (record { stage = SafeStage.ready; sequence = 4 });
  reason_code = none;
  retries = 0;
  available_at = 0;
  created_at = 100;
  hidden_at = none;
}

abbrev pub filling_row : Application
filling_row = record ready_row {
  id = 21;
  tenant = "globex";
  state = ApplicationState.filling;
  checkpoint = some (record { stage = SafeStage.filling; sequence = 3 });
}

abbrev pub demo : Db
demo = record {
  users = record { id = 1; email = 42; email_verified = true } ∷ [];
  pairings =
      record { id = 3; owner_id = 1; credential_binding = 55; revision = 1; revoked_at = none }
      ∷ [];
  workers = worker ∷ [];
  runs =
      record {
        id = 5;
        owner_id = 1;
        worker_id = 7;
        revision = 1;
        state = RunState.running;
        policy_revision = 1;
        policy_version = 1;
        policy_hash = 11;
        created_at = 50;
        discovery_state = DiscoveryState.idle;
        capture_token = none;
        capture_until = none;
        current_manifest_id = none;
      }
      ∷ [];
  applications = ready_row ∷ filling_row ∷ [];
  events = [];
  commands = [];
  submissions = [];
  receipts = [];
  manifests = [];
  targets = [];
  marks = [];
  policies =
      record {
        owner_id = 1;
        revision = 1;
        enabled = true;
        accepted_version = some 1;
        accepted_hash = some 11;
        version = 1;
        hash = 11;
        policy = record {
          allows_submit = true;
          reads_jobs = true;
          daily_application_cap = 10;
          per_employer_cap = 1;
          expires_at = none;
        };
      }
      ∷ [];
}

abbrev pub demo_intent : SubmissionIntent
demo_intent = record {
  intent_id = 70;
  fence = 2;
  expected_revision = 4;
  identity = record { ats = "greenhouse"; tenant = "acme"; requisition = "r1" };
  company = "Acme";
  role = "Intern";
  manifest_hash = 8;
  artifact_hashes = 9 ∷ [];
}

pub demo-Distinct : Distinct demo.applications
demo-Distinct = ((λ e. omega (arith, e), tt), (tt, tt))

abbrev pub filled : EventRequest
filled = record {
  event_id = 60;
  fence = 2;
  expected_revision = 4;
  state = ready;
  checkpoint = record { stage = SafeStage.ready; sequence = 4 };
  reason_code = none;
  evidence = record { artifact_verified = true; form_verified = true; submit_permit = false };
}

abbrev pub demo_receipt : ReceiptCommand
demo_receipt = record {
  intent_id = 70;
  identity = record { ats = "greenhouse"; tenant = "acme"; requisition = "r1" };
  company = "Acme";
  role = "Intern";
  receipt_id = 90;
  submitted_at = 3500;
  evidence = "thank you for applying";
}

abbrev pub cancel_order : ApplicationCommand
cancel_order = record { request_id = 80; expected_revision = 4; action = cancel }
