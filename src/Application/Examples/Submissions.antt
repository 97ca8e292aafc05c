-- ===== src/Application/Examples/Submissions.antt =====
-- The theorems about submission intents and receipts at concrete ones.
use job_dashboard.Prelude.{[], ◌∷◌, ◌≡◌, refl, find, any, select, update_where, true}
use job_dashboard.Application.State.{is_terminal_state}
use job_dashboard.Application.Requests.{SubmissionResponse, ReceiptResponse}
use job_dashboard.Application.Rows.{Application, Db}
use job_dashboard.Application.Tx.{
  done, worker_error, execution_disabled, one, current, app_scope, checks_hold, triggers_allow,
  tenant_free, write_application, update_application, submission_for, insert_submission,
}
use job_dashboard.Application.WorkerStore.{
  live_run, run_of, manifest_ready, marked_by_hand, get_policy, policy_view, policy_of_run,
  pairing_of,
}
use job_dashboard.Application.Leases.{
  assigned, lease_matches, lease_in_time, settle_lease, checked_lease,
}
use job_dashboard.Application.Session.{
  user_binding, credential_binding, credentials_hold, settle_worker, current_worker, token_shape,
  commit, admit, with_known_worker, with_worker,
}
use job_dashboard.Application.Submissions.{
  same_identity, in_state, intent_row, sending, new_intent, check_intent, store_intent,
  intent_known, answer_intent, begin, begin_submission, confirmed,
}
use job_dashboard.Application.Effects.Intents.{after_intent, intent_response, Begun}
use job_dashboard.Application.Effects.Receipts.{after_receipt, receipt_response}
use job_dashboard.Application.Effects.Once.{begin-Begun, begin-begin}
use job_dashboard.Application.Effects.Sessions.{Accepted, with_worker-ok, begin_submission-error}
use job_dashboard.Application.Examples.Household.{
  env, token, worker, demo, demo-Distinct, ready_row, demo_intent, demo_receipt,
}

sent_answer : SubmissionResponse
sent_answer = intent_response 20 demo_intent (sending ready_row ready_row)

sent_db : Db
sent_db = after_intent env 3000 20 demo_intent worker ready_row demo

sent_runs : begin env 3000 20 demo_intent worker demo ≡ done sent_answer sent_db
unfolding begin answer_intent new_intent in_state intent_known checked_lease settle_lease
    lease_in_time lease_matches live_run run_of manifest_ready marked_by_hand get_policy policy_view
    policy_of_run check_intent same_identity store_intent insert_submission intent_row
    submission_for update_application one write_application checks_hold triggers_allow tenant_free
    current app_scope is_terminal_state sending assigned find any select update_where sent_answer
    sent_db
sent_runs = refl

begin-Begun_example : Begun env 3000 20 demo_intent worker demo sent_answer sent_db
unfolding find
begin-Begun_example =
    begin-Begun env 3000 20 demo_intent worker demo sent_answer sent_db refl sent_runs

begin-begin_example :
    begin env 3100 20 demo_intent worker sent_db
    ≡ done (record sent_answer { replayed = true }) sent_db
unfolding find
begin-begin_example =
    begin-begin env 3000 20 demo_intent worker demo sent_answer sent_db 3100 demo-Distinct refl
      sent_runs

begin_submission-error_example : (begin_submission env token 3000 21 demo_intent demo).1 ≡ demo
unfolding begin_submission with_worker token_shape with_known_worker current_worker
    credential_binding user_binding credentials_hold settle_worker commit admit pairing_of begin
    answer_intent new_intent in_state intent_known checked_lease settle_lease lease_in_time
    lease_matches live_run run_of manifest_ready marked_by_hand get_policy policy_view policy_of_run
    check_intent same_identity store_intent insert_submission intent_row submission_for
    update_application one write_application checks_hold triggers_allow tenant_free current
    app_scope is_terminal_state sending assigned find any select update_where
begin_submission-error_example =
    begin_submission-error env token 3000 21 demo_intent demo worker (42 ∷ [])
      (worker_error 409 execution_disabled) refl refl refl refl refl

with_worker-ok_example :
    Accepted env token 3000
      (begin env 3000 20 demo_intent)
      demo
      sent_answer
      (with_worker env token 3000 (begin env 3000 20 demo_intent) demo).1
unfolding with_worker token_shape with_known_worker current_worker credential_binding user_binding
    credentials_hold settle_worker commit admit pairing_of begin answer_intent new_intent in_state
    intent_known checked_lease settle_lease lease_in_time lease_matches live_run run_of
    manifest_ready marked_by_hand get_policy policy_view policy_of_run check_intent same_identity
    store_intent insert_submission intent_row submission_for update_application one
    write_application checks_hold triggers_allow tenant_free current app_scope is_terminal_state
    sending assigned find any select update_where sent_answer
with_worker-ok_example =
    with_worker-ok env token 3000 (begin env 3000 20 demo_intent) demo sent_answer refl

sent_row : Application
sent_row = sending ready_row ready_row

received_answer : ReceiptResponse
received_answer = receipt_response 20 demo_receipt (confirmed sent_row sent_row)

received_db : Db
received_db =
    after_receipt env 4000 20 demo_receipt worker (intent_row env 3000 20 demo_intent worker)
      sent_row sent_db
