-- ===== src/Application/Safety/RunOrders.antt =====
-- `createRun` and `commandRun` of lib/applications/runs.ts keep the rows evolving.
use job_dashboard.Prelude.{ℕ, Bool, true, false, Option, none, some, List, select}
use job_dashboard.Application.Requests.{
  RunState, RunAction, pause, resume, stop, RunCommand, ScopedRequest, Acknowledgement,
}
use job_dashboard.Application.Rows.{Application, Worker, Run, Env}
use job_dashboard.Application.Tx.{M, return, update_run}
use job_dashboard.Application.Session.{current_worker, save_command, replay_command}
use job_dashboard.Application.Commands.{answer_or}
use job_dashboard.Application.Runs.{
  insert_run, refuse_revoked, refuse_second_run, start_run, release_one, release_run_applications,
  check_resume, still_valid, check_action, abandon_manifest, new_run_command, answer_create,
  answer_run_command,
}
use job_dashboard.Application.Safety.Evolution.{Evolved-refl, IsIn}
use job_dashboard.Application.Safety.Rules.{
  Ensures-both, Ensures-mono, Ensures-for_each-All, Ensures-one_of, Ensures-update_run, Holds,
  Holds-if, Holds-option, constructs,
}
use job_dashboard.Application.Safety.Keys.{Distinct, Distinct-Evolved, select-All-IsIn}
use job_dashboard.Application.Safety.Leases.{Kept}
use job_dashboard.Application.Safety.Revocation.{Both, Keeps-same, Keeps-current_worker}
use job_dashboard.Application.Safety.Orders.{Keeps-save_command, Keeps-replay_command}
use job_dashboard.Application.Safety.Polling.{Keeps-insert_run}
use job_dashboard.Application.Safety.Cancelling.{Ensures-release_one}

module _ (env : Env) (before : List Application) (d : Distinct before) (owner now : ℕ) where
  trust : (w : Worker) → Holds (Kept before) (current_worker env w now)
  trust w = record { at = λ db. Keeps-current_worker env before w now db d }

  insertion : (id worker : ℕ) → Holds (Kept before) (insert_run env id owner worker now)
  insertion id worker = record { at = λ db. Keeps-insert_run env id owner worker now before db }

  saving :
      (request : ℕ) (scope : ScopedRequest) (answer : Acknowledgement)
      → Holds (Kept before) (save_command env owner request scope answer now)
  saving request scope answer = record {
    at = λ db. Keeps-save_command env before owner request now scope answer db;
  }

  refusal : (valid : Bool) → Holds (Kept before) (refuse_revoked valid)
  unfolding refuse_revoked
  refusal true = search constructs
  refusal false = search constructs

  Holds-start_run :
      (id request worker : ℕ) → Holds (Kept before) (start_run env id owner request worker now)
  unfolding start_run
  Holds-start_run id request worker =
      search (constructs, trust, insertion, saving, refusal) depth 14

  release_loop :
      (id : ℕ) (state : RunState) → Holds (Kept before) (release_run_applications owner id state)
  unfolding release_run_applications
  release_loop id state = record {
    at = λ db k.
        let rows = db.applications in
        Ensures-mono (λ _. Both before rows) (λ _. Kept before) (Both before rows) (Kept before) _
          (Ensures-for_each-All (λ a. IsIn a rows) (Both before rows) (release_one state)
            (select _ rows) db (select-All-IsIn _ rows)
            (λ app db' m h.
              let dr = Distinct-Evolved before rows k d in
              Ensures-both _ _ _ _ (release_one state app db')
                (Ensures-release_one before rows app state db' dr m h.0 h.1)
                (Ensures-release_one rows rows app state db' dr m h.1 h.1))
            (k, Evolved-refl rows))
          (λ _ db' h. h.0) (λ db' h. h.0);
  }

  redirection : (row : Run) (set : Run → Run) → Holds (Kept before) (update_run row set)
  redirection row set = record {
    at = λ db.
        Keeps-same before (update_run row set) db (Ensures-update_run (Kept before) row set db);
  }

  abandonment :
      (row : Run) (state : RunState) → Holds (Kept before) (abandon_manifest owner row state)
  unfolding abandon_manifest
  abandonment row state =
      Holds-if _ _ (return tt)
        (Holds-option row.current_manifest_id (return tt) _ (search constructs) (λ id. record {
          at = λ db h. Ensures-one_of _ (Kept before) (select _ db.manifests) _ db (λ a. h);
        }))
        (search constructs)

  validity : (worker : Option Worker) → Holds (Kept before) (still_valid env now worker)
  unfolding still_valid
  validity none = search constructs
  validity (some w) = trust w

  resumption : (row : Run) → Holds (Kept before) (check_resume env owner now row)
  unfolding check_resume refuse_second_run
  resumption row = search (constructs, validity, refusal) depth 14

  action_test :
      (row : Run) (action : RunAction) → Holds (Kept before) (check_action env owner now row action)
  unfolding check_action
  action_test row resume = resumption row
  action_test row pause = search constructs
  action_test row stop = search constructs
  action_test row RunAction.emergency_stop = search constructs

  Holds-new_run_command :
      (id : ℕ) (command : RunCommand)
      → Holds (Kept before) (new_run_command env owner id now command)
  unfolding new_run_command
  Holds-new_run_command id command =
      search (constructs, action_test, redirection, abandonment, release_loop, saving) depth 16

  replaying :
      (request : ℕ) (scope : ScopedRequest)
      → Holds (Kept before) (replay_command env owner request scope)
  replaying request scope = record {
    at = λ db. Keeps-replay_command env before owner request scope db;
  }

  answering :
      (replay : Option Acknowledgement) (action : M Acknowledgement)
      → Holds (Kept before) action
      → Holds (Kept before) (answer_or replay action)
  unfolding answer_or
  answering none action h = h
  answering (some answer) action h = search constructs

  pub Holds-answer_create :
      (id request worker : ℕ) → Holds (Kept before) (answer_create env id owner request worker now)
  unfolding answer_create
  Holds-answer_create id request worker = search (constructs, replaying, answering, Holds-start_run)

  pub Holds-answer_run_command :
      (id : ℕ) (command : RunCommand)
      → Holds (Kept before) (answer_run_command env owner id now command)
  unfolding answer_run_command
  Holds-answer_run_command id command =
      search (constructs, replaying, answering, Holds-new_run_command)
