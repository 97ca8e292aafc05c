-- ===== src/Application/Runs.antt =====
-- lib/applications/runs.ts: a worker's runs, started under the owner's enabled policy, paused, resumed and stopped.
-- The id of a new run (`randomUUID`) is an argument.
use job_dashboard.Prelude.{
  ℕ, ◌+◌, ◌==◌, Bool, true, false, not, ◌&&◌, ◌||◌, Option, none, some, if◌then◌else◌, find,
  is_some, update_where, select, ◌∷◌, any,
}
use job_dashboard.Application.State.{state_eq, is_terminal_state, submission_unknown, cancelled}
use job_dashboard.Application.Requests.{
  RunState, RunAction, pause, resume, RunCommand, RunSummary, Acknowledgement, ScopedRequest,
}
use job_dashboard.Application.Rows.{
  Worker, Run, DiscoveryState, Manifest, ManifestState, Application, Db, Env,
}
use job_dashboard.Application.Tx.{
  not_found, conflict, forbidden, run_active, constraint_failed, thrown, done, M, ◌>>=◌, ◌>>◌,
  return, read, deny, fail_if, require, for_each, one, app_scope, update_application, update_run,
}
use job_dashboard.Application.WorkerStore.{
  CurrentPolicy, get_policy, policy_of_run, release_application,
}
use job_dashboard.Application.Commands.{answer_or}
use job_dashboard.Application.Session.{Answer, commit, current_worker, replay_command, save_command}

unfoldable pub run_summary : Run → RunSummary
run_summary r = record {
  id = r.id;
  worker_id = r.worker_id;
  revision = r.revision;
  state = r.state;
  created_at = r.created_at;
}

abbrev pub run_state_eq : RunState → RunState → Bool
run_state_eq RunState.running RunState.running = true
run_state_eq RunState.paused RunState.paused = true
run_state_eq RunState.stopped RunState.stopped = true
run_state_eq _ _ = false

-- A running run of the same worker under the same policy.
unfoldable pub same_live_run : Run → Run → Bool
same_live_run run r =
    r.owner_id == run.owner_id
    && r.worker_id == run.worker_id
    && run_state_eq r.state RunState.running
    && r.policy_revision == run.policy_revision
    && r.policy_version == run.policy_version
    && r.policy_hash == run.policy_hash

unfoldable pub refuse_second_run : Run → M (Unit {0})
refuse_second_run run = do
  live ← read (λ db. find (same_live_run run) db.runs)
  fail_if (is_some live) 409 run_active

unfoldable pub new_run : ℕ → ℕ → ℕ → ℕ → CurrentPolicy → ℕ → Run
new_run id owner worker now policy hash = record {
  id = id;
  owner_id = owner;
  worker_id = worker;
  revision = 1;
  state = RunState.running;
  policy_revision = policy.revision;
  policy_version = policy.policy_version;
  policy_hash = hash;
  created_at = now;
  discovery_state = DiscoveryState.idle;
  capture_token = none;
  capture_until = none;
  current_manifest_id = none;
}

-- The id is a key of the table.
unfoldable pub store_run : Run → M (Option Run)
store_run run db =
    if any (λ (r : Run). r.id == run.id) db.runs
    then thrown constraint_failed
    else done (some run) (record db { runs = run ∷ db.runs })

unfoldable pub add_run : Run → M (Option Run)
add_run run = do refuse_second_run run; store_run run

unfoldable pub insert_run : Env → ℕ → ℕ → ℕ → ℕ → M (Option Run)
insert_run env id owner worker now = do
  policy ← read (get_policy env owner now)
  elim policy.policy_hash [
    | none ↦ return none
    | some hash ↦
        if policy.enabled then add_run (new_run id owner worker now policy hash) else return none
  ]

unfoldable pub worker_by_id : ℕ → ℕ → Worker → Bool
worker_by_id owner id w = w.owner_id == owner && w.id == id

unfoldable pub refuse_revoked : Bool → M (Unit {0})
refuse_revoked true = return tt
refuse_revoked false = deny 403 forbidden

unfoldable pub start_run : Env → ℕ → ℕ → ℕ → ℕ → ℕ → M Acknowledgement
start_run env id owner request worker_id now = do
  found ← read (λ db. find (worker_by_id owner worker_id) db.workers)
  worker ← require found 404 not_found
  valid ← current_worker env worker now
  refuse_revoked valid
  row ← insert_run env id owner worker.id now
  run ← require row 403 forbidden
  save_command env owner request (ScopedRequest.run_create request worker_id)
      (Acknowledgement.run (run_summary run)) now

unfoldable pub answer_create : Env → ℕ → ℕ → ℕ → ℕ → ℕ → M Acknowledgement
answer_create env id owner request worker_id now = do
  replay ← replay_command env owner request (ScopedRequest.run_create request worker_id)
  answer_or replay (start_run env id owner request worker_id now)

unfoldable pub create_run : Env → ℕ → ℕ → ℕ → ℕ → ℕ → Db → Answer Acknowledgement × Db
create_run env id owner request worker_id now db =
    commit db (answer_create env id owner request worker_id now db)

-- What a pause or a stop does to one application of the run.
unfoldable pub same_revision : Application → Application → Application → Bool
unfolding app_scope
same_revision app released a = app_scope app.owner_id app.id a && a.revision == released.revision

unfoldable pub cancel_released : Application → RunState → Application → M (Unit {0})
cancel_released app state released =
    if run_state_eq state RunState.stopped && not (state_eq released.state submission_unknown)
    then (update_application (same_revision app released) (λ a. record a { state = cancelled })
        >>= λ _. return tt)
    else return tt

unfoldable pub release_one : RunState → Application → M (Unit {0})
release_one state app =
    if is_terminal_state app.state
    then return tt
    else release_application app
        (if run_state_eq state RunState.paused then "run_paused" else "run_stopped")
      >>= cancel_released app state

unfoldable pub release_run_applications : ℕ → ℕ → RunState → M (Unit {0})
release_run_applications owner run_id state = do
  apps ← read (λ db.
      select (λ (a : Application). a.owner_id == owner && a.run_id == run_id) db.applications)
  for_each apps (release_one state)

unfoldable pub still_valid : Env → ℕ → Option Worker → M Bool
still_valid env now none = return false
still_valid env now (some worker) = current_worker env worker now

-- Only a paused run resumes, for a worker that still holds its credentials, under the policy that it started with.
unfoldable pub check_resume : Env → ℕ → ℕ → Run → M (Unit {0})
check_resume env owner now row = do
  fail_if (not (run_state_eq row.state RunState.paused)) 409 conflict
  worker ← read (λ db. find (worker_by_id owner row.worker_id) db.workers)
  valid ← still_valid env now worker
  refuse_revoked valid
  policy ← read (get_policy env owner now)
  fail_if (not (policy_of_run policy row)) 403 forbidden
  refuse_second_run row

abbrev pub state_after : RunAction → RunState
state_after resume = RunState.running
state_after pause = RunState.paused
state_after _ = RunState.stopped

abbrev is_staging : DiscoveryState → Bool
is_staging DiscoveryState.staging = true
is_staging _ = false

-- A capture or a staging that has not finished, which a stop abandons.
abbrev incomplete : DiscoveryState → Bool
incomplete DiscoveryState.capturing = true
incomplete DiscoveryState.staging = true
incomplete _ = false

unfoldable pub redirected : Run → RunState → Run → Run
redirected row state r = record r {
  state = state;
  revision = row.revision + 1;
  capture_token = if run_state_eq state RunState.stopped then none else r.capture_token;
  capture_until = if run_state_eq state RunState.stopped then none else r.capture_until;
  discovery_state =
      if run_state_eq state RunState.stopped && incomplete row.discovery_state
      then DiscoveryState.abandoned
      else r.discovery_state;
}

abbrev manifest_staging : ManifestState → Bool
manifest_staging ManifestState.staging = true
manifest_staging _ = false

unfoldable pub abandon_manifest : ℕ → Run → RunState → M (Unit {0})
abandon_manifest owner row state =
    if run_state_eq state RunState.stopped && is_staging row.discovery_state
    then elim row.current_manifest_id [
      | none ↦ return tt
      | some id ↦ do
        old ← (λ db. one (select (hit id) db.manifests) db)
        (λ db. done tt (record db { manifests = update_where (hit id) abandon db.manifests }))
    ]
    else return tt
  where
    hit : ℕ → Manifest → Bool
    hit id m = m.owner_id == owner && m.id == id && m.run_id == row.id && manifest_staging m.state

    abandon : Manifest → Manifest
    abandon m = record m { state = ManifestState.abandoned; revision = m.revision + 1 }

unfoldable pub run_key : ℕ → ℕ → Run → Bool
run_key owner id r = r.owner_id == owner && r.id == id

unfoldable pub check_action : Env → ℕ → ℕ → Run → RunAction → M (Unit {0})
check_action env owner now row resume = check_resume env owner now row
check_action env owner now row _ = return tt

unfoldable pub new_run_command : Env → ℕ → ℕ → ℕ → RunCommand → M Acknowledgement
new_run_command env owner id now command = do
  found ← read (λ db. find (run_key owner id) db.runs)
  row ← require found 404 not_found
  fail_if
      (not (row.revision == command.expected_revision) || run_state_eq row.state RunState.stopped)
      409 conflict
  check_action env owner now row command.action
  updated ← update_run row (redirected row (state_after command.action))
  abandon_manifest owner row (state_after command.action)
  (if run_state_eq (state_after command.action) RunState.running
      then return tt
      else release_run_applications owner id (state_after command.action))
  save_command env owner command.request_id (ScopedRequest.run_command id command)
      (Acknowledgement.run (run_summary updated)) now

unfoldable pub answer_run_command : Env → ℕ → ℕ → ℕ → RunCommand → M Acknowledgement
answer_run_command env owner id now command = do
  replay ← replay_command env owner command.request_id (ScopedRequest.run_command id command)
  answer_or replay (new_run_command env owner id now command)

unfoldable pub command_run : Env → ℕ → ℕ → ℕ → RunCommand → Db → Answer Acknowledgement × Db
command_run env owner id now command db = commit db (answer_run_command env owner id now command db)
