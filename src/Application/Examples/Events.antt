-- ===== src/Application/Examples/Events.antt =====
-- The theorems about a worker's events at concrete ones.
use job_dashboard.Prelude.{
  List, [], ◌∷◌, inl, inr, arith, none, some, ◌≡◌, refl, find, any, select, update_where, true,
}
use job_dashboard.Application.State.{
  ApplicationState, can_transition, is_waiting_state, is_terminal_state,
}
use job_dashboard.Application.Requests.{EventRequest, EventResponse, Lease, LeaseMode}
use job_dashboard.Application.Rows.{Application, Db}
use job_dashboard.Application.Tx.{
  done, denied, thrown, update_worker, worker_error, lease_lost, one, current, app_scope,
  checks_hold, triggers_allow, tenant_free, write_application, update_application, event_key,
  insert_event,
}
use job_dashboard.Application.WorkerStore.{
  live_run, run_of, manifest_ready, marked_by_hand, get_policy, policy_view, policy_of_run,
  pairing_of, lease_of, lease_of_run,
}
use job_dashboard.Application.Leases.{
  assigned, lease_matches, lease_in_time, settle_lease, checked_lease, beat, heartbeat_worker,
}
use job_dashboard.Application.Events.{
  event_evidence, releases, expected_stage, checkpoint_follows, advanced, next_lease, acknowledge,
  acknowledgement, check_event, fresh_event, answer_event, record_event,
}
use job_dashboard.Application.Effects.Events.{after_event, Recorded}
use job_dashboard.Application.Effects.Replays.{record_event-Recorded, record_event-record_event}
use job_dashboard.Application.Session.{
  user_binding, credential_binding, credentials_hold, settle_worker, current_worker, token_shape,
  commit, admit, with_known_worker, with_worker,
}
use job_dashboard.Application.Safety.History.{Request, heartbeat, serve_all}
use job_dashboard.Application.Effects.Leases.{after_release, record_event-denied, serve_all-stale}
use job_dashboard.Application.Examples.Household.{
  env, token, worker, demo, demo-Distinct, filling_row, filled,
}

new_row : Application
new_row = record filling_row {
  state = ApplicationState.ready;
  revision = 5;
  checkpoint = some filled.checkpoint;
}

filled_lease : Lease
filled_lease = record {
  application_id = 21;
  run_id = 5;
  worker_id = 7;
  owner_id = 1;
  policy_revision = 1;
  identity = record { ats = "greenhouse"; tenant = "globex"; requisition = "r1" };
  state = ApplicationState.ready;
  revision = 5;
  fence = 2;
  lease_until = 121000;
  checkpoint = some filled.checkpoint;
  mode = LeaseMode.safe;
}

filled_answer : EventResponse
filled_answer = acknowledgement 2000 21 filled new_row (some filled_lease)

filled_db : Db
filled_db = after_event env 2000 21 filled worker filling_row demo

filled_runs : record_event env 2000 21 filled worker demo ≡ done filled_answer filled_db
unfolding record_event answer_event fresh_event checked_lease settle_lease lease_in_time
    lease_matches live_run run_of manifest_ready marked_by_hand get_policy policy_view policy_of_run
    check_event releases expected_stage checkpoint_follows can_transition is_waiting_state
    is_terminal_state event_evidence update_application one write_application checks_hold
    triggers_allow tenant_free current app_scope acknowledge next_lease lease_of lease_of_run
    advanced event_key insert_event assigned find any select update_where new_row filled_lease
    filled_answer filled_db
filled_runs = refl

record_event-Recorded_example : Recorded env 2000 21 filled worker demo filled_answer filled_db
unfolding find
record_event-Recorded_example =
    record_event-Recorded env 2000 21 filled worker demo filled_answer filled_db refl filled_runs

record_event-record_event_example :
    record_event env 2500 21 filled worker filled_db
    ≡ done (record filled_answer { replayed = true; lease = none; server_time = 2500 }) filled_db
unfolding find
record_event-record_event_example =
    record_event-record_event env 2000 21 filled worker demo filled_answer filled_db 2500 refl
      filled_runs

record_event-denied_example :
    record_event env 130000 21 filled worker demo
    ≡ denied (worker_error 409 lease_lost) (after_release filling_row demo)
unfolding find assigned app_scope lease_matches lease_in_time checks_hold
record_event-denied_example =
    record_event-denied env worker 130000 demo filling_row 21 filled demo-Distinct refl refl refl
      refl refl

-- An event at the fence before the present one, after a heartbeat.
stale : EventRequest
stale = record filled { fence = 1 }

abbrev beats : List Request
beats = heartbeat token 1500 none ∷ []

beaten : Db
beaten = serve_all env beats demo

found_row : find (assigned worker 21) beaten.applications ≡ some filling_row
unfolding beaten heartbeat_worker with_worker token_shape with_known_worker current_worker
    credential_binding user_binding credentials_hold settle_worker commit admit pairing_of beat
    update_worker one select update_where find any assigned app_scope
found_row = refl

no_event : find (event_key 1 21 60) beaten.events ≡ none
unfolding beaten heartbeat_worker with_worker token_shape with_known_worker current_worker
    credential_binding user_binding credentials_hold settle_worker commit admit pairing_of beat
    update_worker one select update_where find any event_key
no_event = refl

serve_all-stale_example :
    record_event env 2000 21 stale worker beaten ≡ thrown (worker_error 409 lease_lost)
unfolding beaten stale
serve_all-stale_example =
    serve_all-stale env beats demo filling_row filling_row worker 2000 stale demo-Distinct
      (inr (inl refl)) (omega arith) no_event found_row
