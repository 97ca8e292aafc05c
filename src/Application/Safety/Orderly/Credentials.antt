-- ===== src/Application/Safety/Orderly/Credentials.antt =====
-- lib/applications/worker-store.ts: the revocation of a worker pauses runs, and the other steps leave them.
use Prim.Native.String.{String}
use job_dashboard.Prelude.{ℕ, Bool, true, false, Option, none, some, arith}
use job_dashboard.Application.Requests.{ScopedRequest, Acknowledgement, RunState}
use job_dashboard.Application.Rows.{Application, Worker, Pairing, Run, StoredCommand, Env}
use job_dashboard.Application.Tx.{M}
use job_dashboard.Application.WorkerStore.{
  release_application, invalidate_pairing, release_active, pause_runs, revoke_pairing,
  revoke_worker, invalidate_worker, lease_of,
}
use job_dashboard.Application.Session.{
  credential_binding, settle_worker, current_worker, admit, with_known_worker, stored_answer,
  replay_command, save_command,
}
use job_dashboard.Application.Safety.OneLive.{Calms}
use job_dashboard.Application.Safety.Orderly.{Orderly, Orderly-update_run, tables}

pub Orderly-release_application :
    (row : Application) (reason : String) → Orderly (release_application row reason)
unfolding release_application
Orderly-release_application row reason = search tables

pub Orderly-lease_of : (app : Application) → Orderly (lease_of app)
unfolding lease_of
Orderly-lease_of app = search tables

Orderly-revoke_pairing : (row : Option Pairing) (now : ℕ) → Orderly (revoke_pairing row now)
unfolding revoke_pairing invalidate_pairing
Orderly-revoke_pairing none now = search tables
Orderly-revoke_pairing (some row) now = search tables

Orderly-revoke_worker : (row : Worker) (now : ℕ) → Orderly (revoke_worker row now)
unfolding revoke_worker
Orderly-revoke_worker row now = search tables

Orderly-release_active : (row : Worker) → Orderly (release_active row)
unfolding release_active
Orderly-release_active row = search (tables, Orderly-release_application)

pause-Calms :
    (revision : ℕ) (r : Run) → Calms r (record r { state = RunState.paused; revision = revision })
pause-Calms revision r = ground arith

Orderly-pause_runs : (row : Worker) → Orderly (pause_runs row)
unfolding pause_runs
Orderly-pause_runs row = search (tables, Orderly-update_run, pause-Calms)

pub Orderly-invalidate_worker : (row : Worker) (now : ℕ) → Orderly (invalidate_worker row now)
unfolding invalidate_worker
Orderly-invalidate_worker row now = search (
  tables, Orderly-revoke_worker, Orderly-revoke_pairing, Orderly-pause_runs, Orderly-release_active,
)

Orderly-settle_worker :
    (row : Worker) (valid : Bool) (now : ℕ) → Orderly (settle_worker row valid now)
unfolding settle_worker
Orderly-settle_worker row true now = search tables
Orderly-settle_worker row false now = search (tables, Orderly-invalidate_worker)

pub Orderly-current_worker :
    (env : Env) (row : Worker) (now : ℕ) → Orderly (current_worker env row now)
unfolding current_worker credential_binding
Orderly-current_worker env row now = search (tables, Orderly-settle_worker)

module _ {A : Type 0} where
  Orderly-admit :
      (worker : Worker) (valid : Bool) (action : Worker → M A)
      → ((w : Worker) → Orderly (action w))
      → Orderly (admit worker valid action)
  unfolding admit
  Orderly-admit worker true action h = h worker
  Orderly-admit worker false action h = search tables

  pub Orderly-with_known_worker :
      (env : Env) (now : ℕ) (worker : Option Worker) (action : Worker → M A)
      → ((w : Worker) → Orderly (action w))
      → Orderly (with_known_worker env now worker action)
  unfolding with_known_worker
  Orderly-with_known_worker env now none action h = search tables
  Orderly-with_known_worker env now (some worker) action h =
      search (tables, Orderly-current_worker, Orderly-admit)

Orderly-stored_answer :
    (env : Env) (request : ScopedRequest) (previous : Option StoredCommand)
    → Orderly (stored_answer env request previous)
unfolding stored_answer
Orderly-stored_answer env request none = search tables
Orderly-stored_answer env request (some previous) = search tables

pub Orderly-replay_command :
    (env : Env) (owner request_id : ℕ) (request : ScopedRequest)
    → Orderly (replay_command env owner request_id request)
unfolding replay_command
Orderly-replay_command env owner request_id request = search (tables, Orderly-stored_answer)

pub Orderly-save_command :
    (env : Env) (owner request_id : ℕ) (request : ScopedRequest) (answer : Acknowledgement)
    (now : ℕ)
    → Orderly (save_command env owner request_id request answer now)
unfolding save_command
Orderly-save_command env owner request_id request answer now = search tables
