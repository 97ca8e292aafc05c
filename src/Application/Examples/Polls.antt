-- ===== src/Application/Examples/Polls.antt =====
-- Polls of the small household.
use job_dashboard.Prelude.{any, find, select, update_where, ◌≡◌, refl, Option, none, some, [], ◌∷◌}
use job_dashboard.Application.State.{queued, screening}
use job_dashboard.Application.Requests.{Lease, LeaseMode}
use job_dashboard.Application.Rows.{Application, ManifestState, Db}
use job_dashboard.Application.Tx.{
  one, update_worker, update_application, write_application, checks_hold, triggers_allow,
  tenant_free, current, app_scope, Outcome, done,
}
use job_dashboard.Application.Poll.{
  poll, sweep, daily_start, hand_out, ordered, place, scan, may_claim, claim_or, claim_row,
  claimed_row, claimed_state, is_candidate, leased_by_owner, is_busy, precedes,
}
use job_dashboard.Application.Caps.{
  claimable_now, live_under, run_scope, cap_held, starts, started_today, reached,
  employer_limit_reached, limited, cap_day, same_employer, discovery_claim_allowed, claim_under,
  unheld, run_policy, policy_of_found, current_discovery_policy, mark_targets, target_of,
}
use job_dashboard.Application.WorkerStore.{
  live_run, run_of, manifest_ready, get_policy, policy_view, policy_of_run, lease_of, lease_of_run,
}
use job_dashboard.Application.Safety.Keys.{Distinct}
use job_dashboard.Application.State.{is_terminal_state}
use job_dashboard.Application.Effects.Polls.{Polled, poll-Polled}
use job_dashboard.Application.Effects.Starts.{HandedUnderCaps, poll-UnderCaps}
use job_dashboard.Application.Examples.Household.{env, worker, demo, ready_row}

-- A discovered role that was never started, at its snapshot.
abbrev fresh_row : Application
fresh_row = record ready_row {
  id = 22;
  tenant = "initech";
  state = queued;
  snapshot_manifest_id = some 4;
  started_at = none;
  fence = 0;
  lease_until = none;
  lease_checked_at = none;
  checkpoint = none;
  available_at = 500;
}

abbrev waiting_demo : Db
waiting_demo = record demo {
  applications = fresh_row ∷ [];
  manifests =
      record { id = 4; owner_id = 1; run_id = 5; state = ManifestState.ready; revision = 1 } ∷ [];
}

abbrev answer_in : Outcome (Option Lease) → Option Lease
answer_in (done a db) = a
answer_in _ = none

abbrev db_in : Outcome (Option Lease) → Db
db_in (done a db) = db
db_in _ = waiting_demo

polled : Outcome (Option Lease)
polled = poll env 90 2000 worker waiting_demo

waiting-Distinct : Distinct waiting_demo.applications
waiting-Distinct = (tt, tt)

polled_lem : polled ≡ done (answer_in polled) (db_in polled)
unfolding polled poll sweep update_worker daily_start hand_out ordered place scan may_claim claim_or
    claim_row claimed_row claimed_state is_candidate leased_by_owner is_busy precedes claimable_now
    live_under run_scope cap_held starts started_today reached employer_limit_reached limited
    cap_day same_employer discovery_claim_allowed claim_under unheld run_policy policy_of_found
    current_discovery_policy mark_targets target_of live_run run_of manifest_ready get_policy
    policy_view policy_of_run lease_of lease_of_run one update_application write_application
    checks_hold triggers_allow tenant_free current app_scope any find select update_where
    is_terminal_state
polled_lem = refl

poll-Polled_example : Polled env 90 2000 worker waiting_demo (answer_in polled) (db_in polled)
unfolding polled
poll-Polled_example =
    poll-Polled env 90 2000 worker waiting_demo (answer_in polled) (db_in polled) waiting-Distinct
      polled_lem

abbrev handed_lease : Lease
handed_lease = record {
  application_id = 22;
  run_id = 5;
  worker_id = 7;
  owner_id = 1;
  policy_revision = 1;
  identity = record { ats = "greenhouse"; tenant = "initech"; requisition = "r1" };
  state = screening;
  revision = 5;
  fence = 1;
  lease_until = 122000;
  checkpoint = none;
  mode = LeaseMode.safe;
}

handed_lem : polled ≡ done (some handed_lease) (db_in polled)
unfolding polled poll sweep update_worker daily_start hand_out ordered place scan may_claim claim_or
    claim_row claimed_row claimed_state is_candidate leased_by_owner is_busy precedes claimable_now
    live_under run_scope cap_held starts started_today reached employer_limit_reached limited
    cap_day same_employer discovery_claim_allowed claim_under unheld run_policy policy_of_found
    current_discovery_policy mark_targets target_of live_run run_of manifest_ready get_policy
    policy_view policy_of_run lease_of lease_of_run one update_application write_application
    checks_hold triggers_allow tenant_free current app_scope any find select update_where
    is_terminal_state
handed_lem = refl

poll-UnderCaps_example : HandedUnderCaps env 90 2000 worker waiting_demo handed_lease (db_in polled)
unfolding polled
poll-UnderCaps_example =
    poll-UnderCaps env 90 2000 worker waiting_demo handed_lease (db_in polled) waiting-Distinct
      handed_lem
