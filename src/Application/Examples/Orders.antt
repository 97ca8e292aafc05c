-- ===== src/Application/Examples/Orders.antt =====
-- The theorems about the applicant's orders, the transition test and any sequence of requests at concrete ones.
use job_dashboard.Prelude.{
  ◌≤◌, ◌↔◌, arith, none, [], ◌∷◌, ◌≡◌, refl, find, any, select, update_where, true, false,
}
use job_dashboard.Application.State.{
  ApplicationState, Evidence, can_transition, is_terminal_state, is_waiting_state, screening,
  tailoring, filling, ready, submitting, submitted,
}
use job_dashboard.Application.State.Machine.{
  Steps, History, start, event, submitted_needs_all_evidence, active_can_complete,
}
use job_dashboard.Application.Buckets.{applied, bucket}
use job_dashboard.Application.Buckets.Views.{age, bucket_ages}
use job_dashboard.Application.Requests.{cancel, Acknowledgement}
use job_dashboard.Application.Rows.{Application, Db}
use job_dashboard.Application.Tx.{
  done, one, current, app_scope, checks_hold, triggers_allow, tenant_free, write_application,
  update_application, command_key, insert_command,
}
use job_dashboard.Application.Session.{stored_answer, replay_command, save_command}
use job_dashboard.Application.Commands.{
  ambiguous, keeping, effect_of, commanded, act, obey, in_run, new_command, answer_or,
  answer_command, application_summary,
}
use job_dashboard.Application.Effects.Commands.{stored, answer_command-answer_command}
use job_dashboard.Application.Safety.Evolution.{Evolved}
use job_dashboard.Application.Safety.History.{heartbeat, intent, serve_all, serve_all-Evolved}
use job_dashboard.Application.Examples.Household.{
  env, token, demo, demo-Distinct, ready_row, demo_intent, cancel_order,
}

serve_all-Evolved_example :
    Evolved demo.applications
      (serve_all env
        (heartbeat token 2000 none ∷ intent token 3000 20 demo_intent ∷ [])
        demo).applications
serve_all-Evolved_example =
    serve_all-Evolved env (heartbeat token 2000 none ∷ intent token 3000 20 demo_intent ∷ []) demo
      demo-Distinct

cancelled_row : Application
cancelled_row = commanded ready_row cancel (keeping ready_row ApplicationState.cancelled) ready_row

cancelled_answer : Acknowledgement
cancelled_answer = Acknowledgement.application (application_summary cancelled_row)

cancelled_db : Db
cancelled_db = record demo {
  applications =
      update_where (current ready_row)
        (commanded ready_row cancel (keeping ready_row ApplicationState.cancelled))
        demo.applications;
  commands = stored env 1 5 20 cancel_order 2000 cancelled_answer ∷ [];
}

cancelled_runs :
    answer_command env 1 5 20 2000 cancel_order demo ≡ done cancelled_answer cancelled_db
unfolding answer_command replay_command stored_answer answer_or command_key new_command in_run obey
    act effect_of ambiguous keeping commanded save_command insert_command application_summary
    update_application one write_application checks_hold triggers_allow tenant_free current
    app_scope is_terminal_state find any select update_where cancelled_row cancelled_answer
    cancelled_db
cancelled_runs = refl

answer_command-answer_command_example :
    answer_command env 1 5 20 9000 cancel_order cancelled_db ≡ done cancelled_answer cancelled_db
unfolding find
answer_command-answer_command_example =
    answer_command-answer_command env 1 5 20 cancel_order 2000 9000 demo cancelled_answer
      cancelled_db refl cancelled_runs

all_flags : Evidence
all_flags = record {
  artifact_verified = true;
  form_verified = true;
  submit_permit = true;
  receipt_verified = true;
  rejected = false;
}

whole-History : History all_flags submitted
unfolding can_transition is_terminal_state is_waiting_state all_flags
whole-History =
    event {s = submitting} all_flags
      (event {s = ready} all_flags
        (event {s = filling} all_flags
          (event {s = tailoring} all_flags
            (event {s = screening} all_flags (event all_flags start refl) refl) refl)
          refl)
        refl)
      refl

submitted_needs_all_evidence_example :
    (all_flags.artifact_verified ≡ true)
    × (all_flags.form_verified ≡ true)
    × (all_flags.submit_permit ≡ true)
    × (all_flags.receipt_verified ≡ true)
submitted_needs_all_evidence_example = submitted_needs_all_evidence all_flags whole-History

active_can_complete_example : Steps screening submitted
unfolding is_terminal_state is_waiting_state
active_can_complete_example = active_can_complete screening refl refl

bucket_ages_example :
    (age (bucket ready_row 5000) ≤ age (bucket ready_row 6000))
    × ((bucket ready_row 5000 ≡ applied) ↔ (bucket ready_row 6000 ≡ applied))
bucket_ages_example = bucket_ages ready_row 5000 6000 (omega arith)
