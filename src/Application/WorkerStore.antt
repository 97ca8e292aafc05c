-- ===== src/Application/WorkerStore.antt =====
-- lib/applications/worker-store.ts: the worker behind a token, its revocation, the release of an application, the run
-- that keeps a lease alive, and stored commands; with `getPolicy` of lib/applications/stores.ts.
-- `now` is read once for a request; the code reads the clock again for a revocation.
use job_dashboard.Prelude.{
  ℕ, ◌+◌, ◌==◌, ltb, String, str_eq, Bool, true, false, not, ◌&&◌, ◌||◌, Option, none, some,
  if◌then◌else◌, or_else, is_some, holds, same, any, select, find,
}
use Prim.Native.String.{String}
use job_dashboard.Application.State.{state_eq, submitting, submission_unknown}
use job_dashboard.Application.Requests.{Lease, LeaseMode, RunState}
use job_dashboard.Application.Rows
use job_dashboard.Application.Rows.{
  Pairing, Worker, Run, Application, Manifest, ManualMark, Policy, PolicyRow, User, StoredCommand,
  Db, Env,
}
use job_dashboard.Application.Tx.{
  lease_lost, M, ◌>>=◌, ◌>>◌, return, read, require, for_each, current, update_application,
  update_worker, update_pairing, update_run,
}

-- `releaseApplication`
unfoldable pub released : String → Application → Application → Application
released reason row a = record a {
  state = if state_eq row.state submitting then submission_unknown else row.state;
  revision = row.revision + 1;
  fence = row.fence + 1;
  lease_until = none;
  lease_checked_at = none;
  reason_code =
      if state_eq row.state submission_unknown
      then some (or_else row.reason_code reason)
      else some reason;
}

unfoldable pub release_application : Application → String → M Application
release_application row reason = update_application (current row) (released reason row)

unfoldable pub invalidate_pairing : Pairing → ℕ → M (Unit {0})
invalidate_pairing row now =
    if is_some row.revoked_at
    then return tt
    else update_pairing row (λ p. record p { revoked_at = some now; revision = row.revision + 1 })

abbrev is_running : RunState → Bool
is_running RunState.running = true
is_running _ = false

-- The last step of `invalidateWorker`: what the worker was working on goes back.
unfoldable pub active_of : Worker → Application → Bool
active_of row a =
    a.owner_id == row.owner_id
    && a.worker_id == row.id
    && (is_some a.lease_until || state_eq a.state submitting)

unfoldable pub release_active : Worker → M (Unit {0})
release_active row = do
  active ← read (λ db. select (active_of row) db.applications)
  for_each active (λ app. do released ← release_application app "worker_revoked"; return tt)

unfoldable pub pause_runs : Worker → M (Unit {0})
pause_runs row = do
  runs ← read (λ db. select running_of db.runs)
  for_each runs (λ run. do
    updated ←
        update_run run (λ r. record r { state = RunState.paused; revision = run.revision + 1 })
    return tt)
  where
    running_of : Run → Bool
    running_of r = r.owner_id == row.owner_id && r.worker_id == row.id && is_running r.state

unfoldable pub pairing_of : Worker → Pairing → Bool
pairing_of row p = p.id == row.pairing_id && p.owner_id == row.owner_id

unfoldable pub revoke_pairing : Option Pairing → ℕ → M (Unit {0})
unfolding invalidate_pairing
revoke_pairing none now = return tt
revoke_pairing (some pairing) now = invalidate_pairing pairing now

unfoldable pub revoke_worker : Worker → ℕ → M (Unit {0})
revoke_worker row now =
    if is_some row.revoked_at
    then return tt
    else update_worker row (λ w. record w { revoked_at = some now; revision = row.revision + 1 })

unfoldable pub invalidate_worker : Worker → ℕ → M (Unit {0})
invalidate_worker row now = do
  revoke_worker row now
  pairing ← read (λ db. find (pairing_of row) db.pairings)
  revoke_pairing pairing now
  pause_runs row
  release_active row

-- `getPolicy`, without the fields that only its HTTP answer shows.
pub record CurrentPolicy : Type 0 where
  pub revision : ℕ
  pub enabled : Bool
  pub policy_version : ℕ
  pub policy_hash : Option ℕ
  pub allows_submit : Bool
  pub reads_jobs : Bool
  pub daily_application_cap : ℕ
  pub per_employer_cap : ℕ

unfoldable pub policy_view : Env → ℕ → Option PolicyRow → CurrentPolicy
policy_view env now none = record {
  revision = 0;
  enabled = false;
  policy_version = 0;
  policy_hash = none;
  allows_submit = false;
  reads_jobs = false;
  daily_application_cap = 10;
  per_employer_cap = 1;
}
policy_view env now (some row) = record {
  revision = row.revision;
  enabled =
      row.enabled
      && same row.accepted_version (some row.version)
      && same row.accepted_hash (some row.hash)
      && row.hash == env.hash_policy row.policy
      && (not (is_some row.policy.expires_at) || holds (λ e. ltb now e) row.policy.expires_at);
  policy_version = row.version;
  policy_hash = some row.hash;
  allows_submit = row.policy.allows_submit;
  reads_jobs = row.policy.reads_jobs;
  daily_application_cap = row.policy.daily_application_cap;
  per_employer_cap = row.policy.per_employer_cap;
}

unfoldable pub get_policy : Env → ℕ → ℕ → Db → CurrentPolicy
get_policy env owner now db = policy_view env now (find (λ row. row.owner_id == owner) db.policies)

-- The policy is enabled and is the one that the run was started under.
unfoldable pub policy_of_run : CurrentPolicy → Run → Bool
policy_of_run policy run =
    policy.enabled
    && policy.revision == run.policy_revision
    && policy.policy_version == run.policy_version
    && same policy.policy_hash (some run.policy_hash)

unfoldable pub run_of : Application → Run → Bool
run_of app r = r.owner_id == app.owner_id && r.id == app.run_id && r.worker_id == app.worker_id

abbrev is_ready : Rows.ManifestState → Bool
is_ready Rows.ManifestState.ready = true
is_ready _ = false

unfoldable pub manifest_ready : Application → Db → Bool
manifest_ready app db = elim app.snapshot_manifest_id [
  | none ↦ true
  | some id ↦
      holds (λ (m : Manifest). is_ready m.state)
        (find (λ (m : Manifest). m.owner_id == app.owner_id && m.id == id) db.manifests)
]

unfoldable pub marked_by_hand : Application → ManualMark → Bool
marked_by_hand app m =
    m.owner_id == app.owner_id
    && holds (λ ats. str_eq ats app.ats) m.ats
    && holds (λ tenant. str_eq tenant app.tenant) m.tenant
    && holds (λ requisition. str_eq requisition app.requisition) m.requisition

unfoldable pub live_run : Env → Application → ℕ → Db → Bool
live_run env app now db = elim (find (run_of app) db.runs) [
  | none ↦ false
  | some run ↦
      if state_eq app.state submission_unknown
      then true
      else is_running run.state
        && manifest_ready app db
        && not (any (marked_by_hand app) db.marks)
        && policy_of_run (get_policy env app.owner_id now db) run
]

unfoldable pub lease_of_run : Application → ℕ → Run → Lease
lease_of_run app until run = record {
  application_id = app.id;
  run_id = app.run_id;
  worker_id = app.worker_id;
  owner_id = app.owner_id;
  policy_revision = run.policy_revision;
  identity = record { ats = app.ats; tenant = app.tenant; requisition = app.requisition };
  state = app.state;
  revision = app.revision;
  fence = app.fence;
  lease_until = until;
  checkpoint = app.checkpoint;
  mode =
      if state_eq app.state submission_unknown || state_eq app.state submitting
      then LeaseMode.reconcile
      else LeaseMode.safe;
}

unfoldable pub lease_of : Application → M Lease
lease_of app = do
  until ← require app.lease_until 409 lease_lost
  found ← read (λ db. find (run_of app) db.runs)
  run ← require found 409 lease_lost
  return (lease_of_run app until run)
