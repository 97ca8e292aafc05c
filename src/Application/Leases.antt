-- ===== src/Application/Leases.antt =====
-- lib/applications/leases.ts: the check of a lease that a worker claims to hold, and its renewal by a heartbeat.
use Prim.Native.String.{String}
use job_dashboard.Prelude.{
  ℕ, ◌+◌, ◌==◌, ltb, leb, Bool, true, false, not, ◌&&◌, ◌||◌, Option, none, some, holds, find,
  is_some,
}
use job_dashboard.Application.State.{is_waiting_state, is_terminal_state}
use job_dashboard.Application.Requests.{Lease, LeaseRef, lease_ms}
use job_dashboard.Application.Rows.{Worker, Application, Db, Env}
use job_dashboard.Application.Tx.{
  lease_lost, M, ◌>>=◌, ◌>>◌, return, read, deny, fail_if, require, app_scope, current,
  update_application, update_worker,
}
use job_dashboard.Application.WorkerStore.{release_application, live_run, lease_of}
use job_dashboard.Application.Session.{Answer, with_worker}

-- The application with this id that is assigned to the worker.
unfoldable pub assigned : Worker → ℕ → Application → Bool
unfolding app_scope
assigned worker id app = app_scope worker.owner_id id app && app.worker_id == worker.id

unfoldable pub lease_matches : Application → LeaseRef → Bool
lease_matches app ref =
    app.fence == ref.fence
    && app.revision == ref.expected_revision
    && is_some app.lease_until
    && is_some app.lease_checked_at

-- The clock is not behind the last check, and the lease has not run out.
unfoldable pub lease_in_time : Application → ℕ → Bool
lease_in_time app now =
    holds (λ checked. leb checked now) app.lease_checked_at
    && holds (λ until. ltb now until) app.lease_until

unfoldable pub settle_lease : Application → Bool → M Application
settle_lease app true = return app
settle_lease app false = do released ← release_application app "lease_lost"; deny 409 lease_lost

unfoldable pub checked_lease : Env → Worker → LeaseRef → ℕ → M Application
checked_lease env worker ref now = do
  found ← read (λ db. find (assigned worker ref.application_id) db.applications)
  app ← require found 409 lease_lost
  fail_if (not (lease_matches app ref)) 409 lease_lost
  live ← read (live_run env app now)
  settle_lease app (lease_in_time app now && live)

unfoldable pub renewed : ℕ → Application → Application
renewed now a = record a { lease_until = some (now + lease_ms); lease_checked_at = some now }

unfoldable pub renew : Env → Worker → ℕ → LeaseRef → M (Option Lease)
renew env worker now ref = do
  app ← checked_lease env worker ref now
  fail_if (is_waiting_state app.state || is_terminal_state app.state) 409 lease_lost
  row ← update_application (current app) (renewed now)
  lease ← lease_of row
  return (some lease)

abbrev pub seen : ℕ → Worker → Worker
seen now w = record w { last_seen_at = some now }

unfoldable pub beat : Env → ℕ → Option LeaseRef → Worker → M (Option Lease)
beat env now lease worker = do
  update_worker worker (seen now)
  elim lease [ none ↦ return none | some ref ↦ renew env worker now ref ]

-- The lease in the answer; the clock fields that every answer carries are left out.
unfoldable pub heartbeat_worker :
    Env → String → ℕ → Option LeaseRef → Db → Answer (Option Lease) × Db
heartbeat_worker env token now lease = with_worker env token now (beat env now lease)
