-- ===== src/Application/Safety/Sending.antt =====
-- `beginSubmission` of lib/applications/submissions.ts keeps the rows evolving.
use job_dashboard.Prelude.{
  ℕ, ◌≡◌, refl, sym, subst, Bool, true, false, not, ◌&&◌, Option, none, some, List, arith, find,
  is_some, ◌==◌, str_eq,
}
use job_dashboard.Application.State.{
  ApplicationState, state_eq, ready, submitting, is_terminal_state,
}
use job_dashboard.Application.Requests.{
  LeaseRef, SubmissionIntent, SubmissionResponse, staging_fixture_tenant,
}
use job_dashboard.Application.Rows.{Worker, Application, Submission, Db, Env}
use job_dashboard.Application.Tx.{
  Code, M, ◌>>=◌, fail_if, throwing, app_scope, submission_for, current, triggers_allow,
  update_application, insert_submission,
}
use job_dashboard.Application.Leases.{assigned, checked_lease}
use job_dashboard.Application.Submissions.{
  identity_of, same_identity, in_state, intent_row, sending, replay_intent, new_intent, begin,
  intent_lease, check_intent, intent_answer, store_intent, answer_intent, awaiting_receipt,
  intent_known, confirmed,
}
use job_dashboard.Application.Safety.Evolution.{Evolves, Evolved, IsIn}
use job_dashboard.Application.Safety.Rules.{
  Ensures, Ensures-bind, Ensures-fail_if, Ensures-require, Ensures-throwing, Ensures-update,
  Ensures-insert_submission, SameApps, Updated, find-IsIn,
}
use job_dashboard.Application.Safety.Leases.{Kept, Checked, Ensures-checked_lease}
use job_dashboard.Application.Safety.Revocation.{Keeps}

pub in_state-some :
    (p : ApplicationState → Bool) (o : Option Application) (app : Application)
    → in_state p o ≡ some app
    → (o ≡ some app) × (p app.state ≡ true)
unfolding in_state
in_state-some p none app e = cc
in_state-some p (some a) app e = ground arith

sending-Evolves :
    (row : Application)
    → state_eq row.state ready ≡ true
    → triggers_allow row (sending row row) ≡ true
    → Evolves row (sending row row)
unfolding sending is_terminal_state
sending-Evolves row r h = ground arith

pub confirmed-Evolves :
    (row : Application)
    → awaiting_receipt row.state ≡ true
    → triggers_allow row (confirmed row row) ≡ true
    → Evolves row (confirmed row row)
unfolding confirmed is_terminal_state
confirmed-Evolves row r h = ground arith

Ensures-check_intent :
    (E : Db → Type 0) (env : Env) (application : ℕ) (command : SubmissionIntent) (worker : Worker)
    (app : Application) (db : Db)
    → Ensures (λ _ db'. db' ≡ db) E (check_intent env application command worker app db)
unfolding check_intent
Ensures-check_intent E env application command worker app db =
    Ensures-fail_if {B = Unit {0}} (λ _ db'. db' ≡ db) E
      (not (same_identity (identity_of app) command.identity)) 409 Code.identity_mismatch _ db
      λ same.
        Ensures-fail_if {B = Unit {0}} (λ _ db'. db' ≡ db) E
          (env.preview_deployment && not (str_eq app.tenant staging_fixture_tenant)) 403
          Code.staging_fixture_only _ db
          λ staged.
            ensures_last
              (is_some (find (submission_for worker.owner_id application) db.submissions))
  where
    ensures_last :
        (b : Bool)
        → Ensures (λ _ db'. db' ≡ db) E (fail_if b 409 Code.submission_already_intended db)
    ensures_last true = tt
    ensures_last false = refl

Keeps-store_intent :
    (env : Env) (before : List Application) (now application : ℕ) (command : SubmissionIntent)
    (worker : Worker) (app : Application) (db : Db)
    → IsIn app db.applications
    → state_eq app.state ready ≡ true
    → Keeps before (store_intent env now application command worker app) db
unfolding store_intent
Keeps-store_intent env before now application command worker app db m r k =
    Ensures-bind (λ _. SameApps db) (λ _. Kept before) (Kept before)
      (insert_submission (intent_row env now application command worker)) _ db
      (Ensures-insert_submission (Kept before) _ db)
      λ _ db' same.
        Ensures-bind (Updated before (sending app app)) (λ _. Kept before) (Kept before)
          (update_application (current app) (sending app)) (intent_answer application command) db'
          (Ensures-update (Kept before) before (sending app) app db'
            (subst (Evolved before) (sym same) k) (subst (IsIn app) (sym same) m)
            (sending-Evolves app r))
          (λ row d u. u.1)

Keeps-new_intent :
    (env : Env) (before : List Application) (now application : ℕ) (command : SubmissionIntent)
    (worker : Worker) (db : Db)
    → Keeps before (new_intent env now application command worker) db
unfolding new_intent
Keeps-new_intent env before now application command worker db k =
    Ensures-require {B = SubmissionResponse} (λ _. Kept before) (Kept before)
      (in_state (λ s. state_eq s ready) (find (assigned worker application) db.applications)) 409
      Code.execution_disabled _ db
      λ app e.
        let (f, r) = in_state-some (λ s. state_eq s ready) _ app e in
        Ensures-bind (Checked env worker ref now db) (λ _. Kept before) (Kept before)
          (throwing (checked_lease env worker ref now)) (λ _. rest app) db
          (Ensures-throwing (Checked env worker ref now db) (Kept before) (Kept before)
            (checked_lease env worker ref now) db
            (Ensures-checked_lease env worker ref now before db k))
          λ a db' c.
            subst (λ d. Ensures (λ _. Kept before) (Kept before) (rest app d)) (sym c.unchanged)
              (Ensures-bind (λ _ d. d ≡ db) (λ _. Kept before) (Kept before)
                (check_intent env application command worker app)
                (λ _. store_intent env now application command worker app) db
                (Ensures-check_intent (Kept before) env application command worker app db)
                λ _ d q.
                  subst
                    (λ d.
                      Ensures (λ _. Kept before) (Kept before)
                        (store_intent env now application command worker app d))
                    (sym q)
                    (Keeps-store_intent env before now application command worker app db
                      (find-IsIn _ _ app f) r k))
  where
    ref : LeaseRef
    ref = intent_lease application command

    rest : Application → M SubmissionResponse
    rest app = check_intent env application command worker app >>= λ _.
        store_intent env now application command worker app

Keeps-answer_intent :
    (env : Env) (before : List Application) (now application : ℕ) (command : SubmissionIntent)
    (worker : Worker) (existing : Option Submission) (db : Db)
    → Keeps before (answer_intent env now application command worker existing) db
unfolding answer_intent replay_intent
Keeps-answer_intent env before now application command worker none db k =
    Keeps-new_intent env before now application command worker db k
Keeps-answer_intent env before now application command worker (some s) db k =
    Ensures-fail_if {B = SubmissionResponse} (λ _. Kept before) (Kept before)
      (not (s.request_hash == env.hash_intent command && s.application_id == application)) 409
      Code.conflict _ db
      λ same.
        Ensures-require {B = SubmissionResponse} (λ _. Kept before) (Kept before)
          (in_state (λ s. state_eq s submitting)
            (find (app_scope worker.owner_id application) db.applications))
          409 Code.conflict _ db λ app e. k

pub Keeps-begin :
    (env : Env) (before : List Application) (now application : ℕ) (command : SubmissionIntent)
    (worker : Worker) (db : Db)
    → Keeps before (begin env now application command worker) db
unfolding begin
Keeps-begin env before now application command worker db k =
    Keeps-answer_intent env before now application command worker
      (find (intent_known worker command.intent_id) db.submissions) db k
