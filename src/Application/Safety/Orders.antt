-- ===== src/Application/Safety/Orders.antt =====
-- `commandApplication` of lib/applications/runs.ts keeps the rows evolving.
use job_dashboard.Prelude.{
  ℕ, sym, subst, not, ◌&&◌, ◌||◌, Option, none, some, List, arith, find, is_some, Bool-cases, inl,
  inr, ◌==◌,
}
use job_dashboard.Application.State.{state_eq, submission_unknown, is_terminal_state}
use job_dashboard.Application.Requests.{ApplicationCommand, ScopedRequest, Acknowledgement}
use job_dashboard.Application.Rows.{Application, StoredCommand, Db, Env}
use job_dashboard.Application.Tx.{
  Code, M, return, command_key, current, update_application, insert_command,
}
use job_dashboard.Application.Safety.Evolution.{IsIn}
use job_dashboard.Application.Safety.Rules.{
  Ensures, Ensures-bind, Ensures-fail_if, Ensures-require, Ensures-mono, Ensures-update,
  Ensures-insert_command, Updated, find-IsIn,
}
use job_dashboard.Application.Safety.Leases.{Kept}
use job_dashboard.Application.Safety.Revocation.{Keeps, Keeps-same, Keeps-then}
use job_dashboard.Application.Session.{stored_answer, replay_command, save_command}
use job_dashboard.Application.Commands.{
  Effect, ambiguous, effect_of, commanded, hidden, is_delete, is_answer, settles, hide, act, obey,
  in_run, new_command, answer_or, answer_command,
}
use job_dashboard.Application.Safety.Decisions.{
  commanded-Evolves, hidden-Evolves, EffectOf, Ensures-effect_of,
}

Keeps-act :
    (env : Env) (before : List Application) (owner run_id now : ℕ) (command : ApplicationCommand)
    (row : Application) (db : Db)
    → IsIn row db.applications
    → Keeps before (act env owner run_id now command row) db
unfolding act
Keeps-act env before owner run_id now command row db m k =
    Ensures-fail_if {B = Application} (λ _. Kept before) (Kept before)
      ((not (row.revision == command.expected_revision)
          && not (is_answer command.action && state_eq row.state submission_unknown))
        || is_terminal_state row.state)
      409 Code.conflict _ db
      λ fresh.
        Ensures-fail_if {B = Application} (λ _. Kept before) (Kept before)
          (ambiguous row && not (settles command.action)) 409 Code.conflict _ db
          λ settled.
            Ensures-bind (EffectOf row db) (λ _. Kept before) (Kept before)
              (effect_of env owner run_id now row command.action) (carry_out row) db
              (Ensures-effect_of (Kept before) env owner run_id now row command.action db
                (ground arith))
              λ e db' q.
                subst (λ d. Ensures (λ _. Kept before) (Kept before) (carry_out row e d)) (sym q.0)
                  (Ensures-mono (Updated before (commanded row command.action e row))
                    (λ _. Kept before) (Kept before) (Kept before) (carry_out row e db)
                    (Ensures-update (Kept before) before (commanded row command.action e) row db k m
                      (λ h. commanded-Evolves row command.action e q.1))
                    (λ a d u. u.1) (λ d x. x))
  where
    carry_out : Application → Effect → M Application
    carry_out row e = update_application (current row) (commanded row command.action e)

Keeps-hide :
    (before : List Application) (now : ℕ) (command : ApplicationCommand) (row : Application)
    (db : Db)
    → IsIn row db.applications
    → Keeps before (hide now command row) db
unfolding hide
Keeps-hide before now command row db m k =
    Ensures-fail_if {B = Application} (λ _. Kept before) (Kept before)
      (not (row.revision == command.expected_revision) || is_some row.hidden_at) 409 Code.conflict _
      db
      λ fresh.
        Ensures-fail_if {B = Application} (λ _. Kept before) (Kept before) (ambiguous row) 409
          Code.conflict _ db
          λ settled.
            Ensures-mono (Updated before (hidden now row row)) (λ _. Kept before) (Kept before)
              (Kept before) (update_application (current row) (hidden now row) db)
              (Ensures-update (Kept before) before (hidden now row) row db k m
                (λ h. hidden-Evolves now row settled))
              (λ a d u. u.1) (λ d x. x)

Keeps-obey :
    (env : Env) (before : List Application) (owner run_id now : ℕ) (command : ApplicationCommand)
    (row : Application) (db : Db)
    → IsIn row db.applications
    → Keeps before (obey env owner run_id now command row) db
unfolding obey
Keeps-obey env before owner run_id now command row db m k =
    elim (Bool-cases (is_delete command.action)) [
      | inl hides ↦ rw hides (Keeps-hide before now command row db m k)
      | inr acts ↦ rw acts (Keeps-act env before owner run_id now command row db m k)
    ]

pub Keeps-save_command :
    (env : Env) (before : List Application) (owner request now : ℕ) (scope : ScopedRequest)
    (answer : Acknowledgement) (db : Db)
    → Keeps before (save_command env owner request scope answer now) db
unfolding save_command
Keeps-save_command env before owner request now scope answer db =
    Keeps-then before (insert_command row) (λ _. return answer) db
      (Keeps-same before (insert_command row) db (Ensures-insert_command (Kept before) row db))
      (λ _ d k. k)
  where
    row : StoredCommand
    row = record {
      owner_id = owner;
      request_id = request;
      request_hash = env.hash_request scope;
      acknowledgement = answer;
      created_at = now;
    }

Keeps-new_command :
    (env : Env) (before : List Application) (owner run_id id now : ℕ) (command : ApplicationCommand)
    (db : Db)
    → Keeps before (new_command env owner run_id id now command) db
unfolding new_command
Keeps-new_command env before owner run_id id now command db k =
    Ensures-require {B = Acknowledgement} (λ _. Kept before) (Kept before)
      (find (in_run owner run_id id) db.applications) 404 Code.not_found _ db
      λ row e.
        Keeps-then before (obey env owner run_id now command row) _ db
          (Keeps-obey env before owner run_id now command row db (find-IsIn _ _ row e))
          (λ updated d. Keeps-save_command env before owner command.request_id now _ _ d) k

-- A stored answer changes nothing.
pub Keeps-replay_command :
    (env : Env) (before : List Application) (owner request : ℕ) (scope : ScopedRequest) (db : Db)
    → Keeps before (replay_command env owner request scope) db
unfolding replay_command
Keeps-replay_command env before owner request scope db k =
    stored (find (command_key owner request) db.commands)
  where
    stored :
        (previous : Option StoredCommand)
        → Ensures (λ _. Kept before) (Kept before) (stored_answer env scope previous db)
    stored none = unfold stored_answer in k
    stored (some previous) =
        unfold stored_answer in
        (elim (Bool-cases (previous.request_hash == env.hash_request scope)) [
          | inl again ↦ rw again k
          | inr other ↦ rw other tt
        ])

pub Keeps-answer_or :
    (before : List Application) (replay : Option Acknowledgement) (action : M Acknowledgement)
    (db : Db)
    → Keeps before action db
    → Keeps before (answer_or replay action) db
unfolding answer_or
Keeps-answer_or before none action db h k = h k
Keeps-answer_or before (some answer) action db h k = k

pub Keeps-answer_command :
    (env : Env) (before : List Application) (owner run_id id now : ℕ) (command : ApplicationCommand)
    (db : Db)
    → Keeps before (answer_command env owner run_id id now command) db
unfolding answer_command
Keeps-answer_command env before owner run_id id now command db =
    Keeps-then before
      (replay_command env owner command.request_id
        (ScopedRequest.application_command run_id id command))
      _ db (Keeps-replay_command env before owner command.request_id _ db)
      λ replay d.
        Keeps-answer_or before replay (new_command env owner run_id id now command) d
          (Keeps-new_command env before owner run_id id now command d)
