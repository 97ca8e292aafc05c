-- ===== src/Application/Safety/Receiving.antt =====
-- `recordReceipt` of lib/applications/submissions.ts keeps the rows evolving.
use job_dashboard.Prelude.{
  ℕ, ◌+◌, ◌≡◌, sym, subst, true, not, ◌&&◌, Option, none, some, List, find, ◌==◌, ltb,
}
use job_dashboard.Application.State.{state_eq, submitted}
use job_dashboard.Application.Requests.{ReceiptCommand, ReceiptResponse}
use job_dashboard.Application.Rows.{Worker, Application, Submission, Receipt, Db, Env}
use job_dashboard.Application.Tx.{
  Code, throwing, app_scope, current, update_application, insert_receipt,
}
use job_dashboard.Application.Leases.{assigned, checked_lease}
use job_dashboard.Application.Submissions.{
  in_state, receipt_lease, receipt_answer, store_receipt, awaiting_receipt, answer_receipt,
  receipt_known, intent_of, intent_agrees, receipt_row, confirmed, replay_receipt, new_receipt,
  take_receipt,
}
use job_dashboard.Application.Safety.Evolution.{Evolved, IsIn}
use job_dashboard.Application.Safety.Rules.{
  Ensures, Ensures-bind, Ensures-fail_if, Ensures-require, Ensures-throwing, Ensures-update,
  Ensures-insert_receipt, SameApps, Updated, find-IsIn,
}
use job_dashboard.Application.Safety.Leases.{Kept, Checked, Ensures-checked_lease}
use job_dashboard.Application.Safety.Revocation.{Keeps}
use job_dashboard.Application.Safety.Sending.{in_state-some, confirmed-Evolves}

Keeps-store_receipt :
    (before : List Application) (now application : ℕ) (command : ReceiptCommand) (worker : Worker)
    (intent : Submission) (app : Application) (db : Db)
    → IsIn app db.applications
    → awaiting_receipt app.state ≡ true
    → Keeps before (store_receipt now application command worker intent app) db
unfolding store_receipt
Keeps-store_receipt before now application command worker intent app db m r k =
    Ensures-bind (λ _. SameApps db) (λ _. Kept before) (Kept before)
      (insert_receipt (receipt_row now application command worker)) _ db
      (Ensures-insert_receipt (Kept before) _ db)
      λ _ db' same.
        Ensures-bind (Updated before (confirmed app app)) (λ _. Kept before) (Kept before)
          (update_application (current app) (confirmed app)) (receipt_answer application command) _
          (Ensures-update (Kept before) before (confirmed app) app _
            (subst (Evolved before) (sym same) k) (subst (IsIn app) (sym same) m)
            (confirmed-Evolves app r))
          (λ row d u. u.1)

Keeps-new_receipt :
    (env : Env) (before : List Application) (now application : ℕ) (command : ReceiptCommand)
    (worker : Worker) (intent : Submission) (db : Db)
    → Keeps before (new_receipt env now application command worker intent) db
unfolding new_receipt
Keeps-new_receipt env before now application command worker intent db k =
    Ensures-fail_if {B = ReceiptResponse} (λ _. Kept before) (Kept before)
      (ltb (now + 300000) command.submitted_at) 400 Code.invalid_receipt _ db
      λ past.
        Ensures-require {B = ReceiptResponse} (λ _. Kept before) (Kept before)
          (in_state awaiting_receipt (find (assigned worker application) db.applications)) 409
          Code.execution_disabled _ db
          λ app e.
            let (f, r) = in_state-some awaiting_receipt _ app e in
            Ensures-bind (Checked env worker (receipt_lease application app) now db)
              (λ _. Kept before) (Kept before)
              (throwing (checked_lease env worker (receipt_lease application app) now))
              (λ _. store_receipt now application command worker intent app) db
              (Ensures-throwing (Checked env worker (receipt_lease application app) now db)
                (Kept before) (Kept before)
                (checked_lease env worker (receipt_lease application app) now) db
                (Ensures-checked_lease env worker (receipt_lease application app) now before db k))
              λ a db' c.
                subst
                  (λ d.
                    Ensures (λ _. Kept before) (Kept before)
                      (store_receipt now application command worker intent app d))
                  (sym c.unchanged)
                  (Keeps-store_receipt before now application command worker intent app db
                    (find-IsIn _ _ app f) r k)

Keeps-answer_receipt :
    (env : Env) (before : List Application) (now application : ℕ) (command : ReceiptCommand)
    (worker : Worker) (intent : Submission) (previous : Option Receipt) (db : Db)
    → Keeps before (answer_receipt env now application command worker intent previous) db
unfolding answer_receipt replay_receipt
Keeps-answer_receipt env before now application command worker intent none db k =
    Keeps-new_receipt env before now application command worker intent db k
Keeps-answer_receipt env before now application command worker intent (some r) db k =
    Ensures-fail_if {B = ReceiptResponse} (λ _. Kept before) (Kept before)
      (not (r.receipt_id == command.receipt_id && r.submitted_at == command.submitted_at)) 409
      Code.conflict _ db
      λ same.
        Ensures-require {B = ReceiptResponse} (λ _. Kept before) (Kept before)
          (in_state (λ s. state_eq s submitted)
            (find (app_scope worker.owner_id application) db.applications))
          409 Code.conflict _ db λ app e. k

pub Keeps-take_receipt :
    (env : Env) (before : List Application) (now application : ℕ) (command : ReceiptCommand)
    (worker : Worker) (db : Db)
    → Keeps before (take_receipt env now application command worker) db
unfolding take_receipt
Keeps-take_receipt env before now application command worker db k =
    Ensures-require {B = ReceiptResponse} (λ _. Kept before) (Kept before)
      (find (intent_of worker application command.intent_id) db.submissions) 409
      Code.receipt_identity_mismatch _ db
      λ intent e.
        Ensures-fail_if {B = ReceiptResponse} (λ _. Kept before) (Kept before)
          (not (intent_agrees command intent)) 409 Code.receipt_identity_mismatch _ db
          λ agrees.
            Keeps-answer_receipt env before now application command worker intent
              (find (receipt_known worker command.intent_id) db.receipts) db k
